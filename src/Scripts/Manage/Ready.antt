-- ===== src/Scripts/Manage/Ready.antt =====
-- Waiting for the server: `wait_until_ready` of scripts/manage_server.py and the commands that end with it.
use project_g_one.Prelude.{
  ◌≡◌, refl, ℕ, zero, suc, ◌+◌, ◌*◌, ◌≤◌, String, Bool, true, false, not, ◌&&◌, ◌||◌, List, [], ◌∷◌,
  ◌==◌, Option, none, some, nat_eq, ltb, arith, eq_refl, if◌then◌else◌,
}
use project_g_one.Scripts.Machine.{
  Action, fetch, sleep, Machine, Script, Host, returned, pure, ◌>>=◌, act, pause,
}
use project_g_one.Scripts.Machine.Ensures.{
  Ensures, EnsuresAfter, bind-Ensures, bind-EnsuresAfter, returned-Ensures,
}
use project_g_one.Scripts.Manage.{
  Command, start, stop, restart, status, update, doctor, logs, ready_url, is_ok, after_reply,
  urlopen, wait_loop, wait_until_ready, exit_status, exit_when_ready, start_server, run_command,
}

-- The last action asked the server whether it is ready, and the server said yes.
abbrev pub said_ready : Machine → String → List Action → Bool
said_ready m port [] = false
said_ready m port (fetch url ∷ done) = (url == ready_url port) && is_ok (m.reply (fetch url ∷ done))
said_ready m port (_ ∷ done) = false

-- A clock that pauses advance and replies do not set back, and a server that says yes or fails.
pub record Times (m : Machine) : Type 0 where
  pub pauses : (ms : ℕ) (done : List Action) → m.monotonic done + ms ≤ m.monotonic (sleep ms ∷ done)
  pub fetches :
      (url : String) (done : List Action) → m.monotonic done ≤ m.monotonic (fetch url ∷ done)
  pub replies :
      (url : String) (done : List Action) (code : ℕ)
      → m.reply (fetch url ∷ done) ≡ some code
      → code ≡ 200

module _ (m : Machine) (port : String) where
  found : Option Bool → List Action → Bool
  found (some true) done = said_ready m port done
  found _ done = true

  reply-Ensures :
      (again : Script (Option Bool))
      → Ensures found again
      → (h : Host) (r : Option ℕ) → m.reply (fetch (ready_url port) ∷ h.done) ≡ r
      → (a : Option Bool) → (after_reply again r (act (fetch (ready_url port)) h)).0 ≡ returned a
      → found a ((after_reply again r (act (fetch (ready_url port)) h)).1).done ≡ true
  unfolding Ensures found act pause ◌>>=◌ pure
  reply-Ensures again ih h none k a e = ih (act (sleep 2000) (act (fetch (ready_url port)) h)) a e
  reply-Ensures again ih h (some code) k a e = branch (nat_eq code 200) refl e
    where
      after : Host
      after = act (fetch (ready_url port)) h

      branch :
          (b : Bool)
          → nat_eq code 200 ≡ b
          → ((if b then pure (some true) else again) after).0 ≡ returned a
          → found a (((if b then pure (some true) else again) after).1).done ≡ true
      branch true q e =
          returned-Ensures found (some true) a after.done (ground (arith, eq_refl (ready_url port)))
            e
      branch false q e = ih after a e

  loop-Ensures : (deadline fuel : ℕ) → Ensures found (wait_loop m (ready_url port) deadline fuel)
  unfolding Ensures wait_loop found pure urlopen ◌>>=◌ act
  loop-Ensures deadline zero h a e = returned-Ensures found none a h.done refl e
  loop-Ensures deadline (suc fuel) h a e =
      branch (ltb (m.monotonic h.done) deadline)
        (reply-Ensures (wait_loop m (ready_url port) deadline fuel) (loop-Ensures deadline fuel) h
          (m.reply (fetch (ready_url port) ∷ h.done)) refl a)
        e
    where
      again : Script (Option Bool)
      again =
          urlopen m (ready_url port) >>= after_reply (wait_loop m (ready_url port) deadline fuel)

      branch :
          (b : Bool)
          → ((again h).0 ≡ returned a → found a ((again h).1).done ≡ true)
          → ((if b then again else pure (some false)) h).0 ≡ returned a
          → found a (((if b then again else pure (some false)) h).1).done ≡ true
      branch true k e = k e
      branch false k e = returned-Ensures found (some false) a h.done refl e

  wait-Ensures : Ensures found (wait_until_ready m port)
  unfolding Ensures wait_until_ready
  wait-Ensures h = loop-Ensures (m.monotonic h.done + 90000) 46 h

  exited : ℕ → List Action → Bool
  exited code done = not (nat_eq code 0) || said_ready m port done

  exit-Ensures : (docker : List String) → Ensures exited (exit_when_ready m docker port)
  unfolding exit_when_ready EnsuresAfter pure found exited
  exit-Ensures docker =
      bind-EnsuresAfter found exited (wait_until_ready m port) (λ ready. pure (exit_status ready))
        wait-Ensures answer
    where
      answer :
          (ready : Option Bool) (h : Host) (code : ℕ)
          → found ready h.done ≡ true
          → (pure (exit_status ready) h).0 ≡ returned code
          → exited code ((pure (exit_status ready) h).1).done ≡ true
      answer (some true) h code t e = returned-Ensures exited 0 code h.done t e
      answer (some false) h code t e = returned-Ensures exited 1 code h.done refl e
      answer none h code t e = returned-Ensures exited 1 code h.done refl e

  start-Ensures :
      (docker : List String) (root bind : String)
      → Ensures exited (start_server m docker root bind port)
  unfolding start_server
  start-Ensures docker root bind =
      bind-Ensures exited _ _ (λ _. bind-Ensures exited _ _ (λ _. exit-Ensures docker))

-- The commands that leave a server running.
abbrev pub is_serving : Command → Bool
is_serving start = true
is_serving restart = true
is_serving update = true
is_serving _ = false

-- Where starting, restarting or updating exits with status 0, the last thing that was done is a question
-- to the server, which said that it is ready.
pub run_command-ready :
    (m : Machine) (docker : List String) (root bind port : String) (command : Command) (h : Host)
    → is_serving command ≡ true
    → (run_command m docker root bind port command h).0 ≡ returned 0
    → said_ready m port ((run_command m docker root bind port command h).1).done ≡ true
unfolding run_command exited Ensures
run_command-ready m docker root bind port start h s e = start-Ensures m port docker root bind h 0 e
run_command-ready m docker root bind port restart h s e =
    bind-Ensures (exited m port) _ _ (λ _. exit-Ensures m port docker) h 0 e
run_command-ready m docker root bind port update h s e =
    bind-Ensures (exited m port) _ _ (λ _. start-Ensures m port docker root bind) h 0 e
run_command-ready m docker root bind port stop h s e = cc
run_command-ready m docker root bind port status h s e = cc
run_command-ready m docker root bind port doctor h s e = cc
run_command-ready m docker root bind port (logs follow) h s e = cc

module _ (m : Machine) (times : Times m) where
  -- An answer, given one after a reply.
  round_ends :
      (url : String) (deadline fuel : ℕ) (h : Host) (b : Bool)
      → (b ≡ true
          → (ready : Bool) × (((urlopen m url >>= after_reply (wait_loop m url deadline fuel)) h).0
              ≡ returned (some ready)))
      → (ready : Bool) × (((if b
              then (urlopen m url >>= after_reply (wait_loop m url deadline fuel))
              else pure (some false))
            h).0
          ≡ returned (some ready))
  unfolding pure
  round_ends url deadline fuel h true k = k refl
  round_ends url deadline fuel h false k = (false, refl)

  reply_ends :
      (url : String) (again : Script (Option Bool)) (h : Host) (r : Option ℕ)
      → m.reply (fetch url ∷ h.done) ≡ r
      → ((ready : Bool) × ((again (act (sleep 2000) (act (fetch url) h))).0
            ≡ returned (some ready)))
      → (ready : Bool) × ((after_reply again r (act (fetch url) h)).0 ≡ returned (some ready))
  unfolding act ◌>>=◌ pure pause
  reply_ends url again h none k rest = rest
  reply_ends url again h (some code) k rest =
      (true, ground (arith, times.replies url h.done code k))

  -- A pause of two seconds for each round that is left reaches the deadline.
  loop_ends :
      (url : String) (deadline fuel : ℕ) (h : Host)
      → deadline ≤ m.monotonic h.done + 2000 * fuel
      → (ready : Bool) × ((wait_loop m url deadline (suc fuel) h).0 ≡ returned (some ready))
  unfolding wait_loop urlopen act ◌>>=◌ pure pause
  loop_ends url deadline zero h bound =
      round_ends url deadline zero h (ltb (m.monotonic h.done) deadline)
        (λ late. absurd (ground (arith)))
  loop_ends url deadline (suc fuel) h bound =
      let waited = times.pauses 2000 (fetch url ∷ h.done) in
      let fetched = times.fetches url h.done in
      let later : deadline ≤ m.monotonic (sleep 2000 ∷ (fetch url ∷ h.done)) + 2000 * fuel =
        omega arith in
      round_ends url deadline (suc fuel) h (ltb (m.monotonic h.done) deadline) (λ early.
        reply_ends url (wait_loop m url deadline (suc fuel)) h (m.reply (fetch url ∷ h.done)) refl
          (loop_ends url deadline fuel (act (sleep 2000) (act (fetch url) h)) later))

-- Waiting ends, within the 46 rounds that it is given, with an answer, on a clock that pauses advance and
-- replies do not set back, where every reply is 200 or a failure.
pub wait_until_ready-ends :
    (m : Machine)
    → Times m
    → (port : String) (h : Host)
    → (ready : Bool) × ((wait_until_ready m port h).0 ≡ returned (some ready))
unfolding wait_until_ready
wait_until_ready-ends m times port h =
    loop_ends m times (ready_url port) (m.monotonic h.done + 90000) 45 h (omega arith)
