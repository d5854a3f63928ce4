-- ===== src/Scripts/HostPort/Free.antt =====
-- What a return of `ensure_host_port` of scripts/host_port.py tells.
use mathlib.Core.List.{◌++◌ as ◌+++◌}
use project_g_one.Prelude.{
  ◌≡◌, refl, ℕ, zero, suc, String, Bool, true, false, not, ◌&&◌, ◌||◌, List, [], ◌∷◌, ◌==◌, none,
  nat_eq, arith, eq_refl, if◌then◌else◌, length,
}
use project_g_one.Scripts.Machine.{
  Action, connect, Machine, Host, returned, pure, raise, ◌>>◌, act, checked, pause,
}
use project_g_one.Scripts.Machine.Ensures.{Ensures, bind-Ensures, if_returned-Ensures}
use project_g_one.Scripts.HostPort.{
  probe_address, port_is_available, wait_until_free, stop_processes, legacy_g_one_processes,
  stop_legacy_processes, remove_stale, stop_if_host, port_used, free_host_port, ensure_host_port,
}

-- The last action tried to connect to the port, and nothing listened there.
abbrev pub is_free : Machine → String → ℕ → List Action → Bool
is_free m bind port [] = false
is_free m bind port (connect address tried ∷ done) =
    (address == probe_address bind)
    && nat_eq tried port
    && not (m.connected (connect address tried ∷ done))
is_free m bind port (_ ∷ done) = false

module _ (m : Machine) (bind : String) (port : ℕ) where
  said : Bool → List Action → Bool
  said b done = not b || is_free m bind port done

  free : Unit {0} → List Action → Bool
  free _ done = is_free m bind port done

  probe-Ensures : Ensures said (port_is_available m bind port)
  unfolding Ensures port_is_available act said
  probe-Ensures h a e = ground (arith, eq_refl (probe_address bind))

  no-Ensures : Ensures said (pure false)
  unfolding Ensures pure said
  no-Ensures h true e = cc
  no-Ensures h false e = refl

  wait-Ensures : (n : ℕ) → Ensures said (wait_until_free m n bind port)
  unfolding wait_until_free said
  wait-Ensures zero = no-Ensures
  wait-Ensures (suc n) =
      if_returned-Ensures (is_free m bind port) true (port_is_available m bind port)
        (pause 250 >> wait_until_free m n bind port) said (λ done h. h) probe-Ensures
        (bind-Ensures said (pause 250) (λ _. wait_until_free m n bind port) (λ _. wait-Ensures n))

  stop-Ensures : (ps : List ℕ) → Ensures said (stop_processes m ps bind port)
  unfolding stop_processes
  stop-Ensures [] = no-Ensures
  stop-Ensures (p ∷ ps) = bind-Ensures said _ _ (λ _. wait-Ensures 20)

  host-Ensures :
      (containers : List String) (root : String)
      → Ensures said (stop_if_host m containers root bind port)
  unfolding stop_if_host stop_legacy_processes Ensures
  host-Ensures [] root = bind-Ensures said (legacy_g_one_processes m root port) _ stop-Ensures
  host-Ensures (c ∷ cs) root = no-Ensures

  remove-Ensures :
      (docker containers stale : List String) (replace_stale : Bool)
      → Ensures said (remove_stale m docker containers stale replace_stale bind port)
  unfolding remove_stale
  remove-Ensures docker containers [] replace_stale = no-Ensures
  remove-Ensures docker containers (s ∷ stale) replace_stale =
      branch (replace_stale && nat_eq (length (s ∷ stale)) (length containers))
    where
      branch :
          (b : Bool)
          → Ensures said (
              if b
              then (checked m (docker +++ ("rm" ∷ "--force" ∷ s ∷ stale)) none
                  >> port_is_available m bind port)
              else pure false)
      branch true = bind-Ensures said _ _ (λ _. probe-Ensures)
      branch false = no-Ensures

  used-Ensures : (containers : List String) → Ensures free (port_used bind port containers)
  unfolding Ensures port_used raise
  used-Ensures containers h a e = cc

  module _ (root : String) (docker : List String) (replace_stale : Bool) where
    free-Ensures : Ensures free (free_host_port m root docker bind port replace_stale)
    unfolding free_host_port free said
    free-Ensures = bind-Ensures free _ _ (λ containers. bind-Ensures free _ _ (λ stale.
        if_returned-Ensures (is_free m bind port) tt _ _ free (λ done h. h)
          (remove-Ensures docker containers stale replace_stale)
          (if_returned-Ensures (is_free m bind port) tt _ _ free (λ done h. h)
            (host-Ensures containers root) (used-Ensures containers))))

    ensure-Ensures : Ensures free (ensure_host_port m root docker bind port replace_stale)
    unfolding ensure_host_port free said
    ensure-Ensures =
        if_returned-Ensures (is_free m bind port) tt _ _ free (λ done h. h) probe-Ensures
          free-Ensures

-- Where the script returns, its last action found that nothing listens on the port, whether it was free,
-- stale containers were removed or old processes were stopped.
pub ensure_host_port-free :
    (m : Machine) (root : String) (docker : List String) (bind : String) (port : ℕ)
    (replace_stale : Bool) (h : Host)
    → (ensure_host_port m root docker bind port replace_stale h).0 ≡ returned tt
    → is_free m bind port ((ensure_host_port m root docker bind port replace_stale h).1).done ≡ true
unfolding Ensures free
ensure_host_port-free m root docker bind port replace_stale h e =
    ensure-Ensures m bind port root docker replace_stale h tt e
