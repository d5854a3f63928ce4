-- ===== src/Outside.antt =====
-- What a request reads from outside the program: the clock, fresh randomness, hash functions and the
-- tables of Unicode. The n-th reading of a request is the value at n.
use project_g_one.Prelude.{ℕ, String, Bool, Option, List}

-- What `ipaddress.ip_interface` reads from a text: the version, the address as a number, and the
-- length of the network's prefix.
pub record Interface : Type 0 where
  pub version : ℕ
  pub ip : ℕ
  pub prefix_length : ℕ

pub record Outside : Type 0 where
  -- datetime.now(timezone.utc), in microseconds
  pub clock : ℕ → ℕ
  -- str(uuid.uuid4())
  pub uuid4 : ℕ → String
  -- secrets.token_urlsafe(32)
  pub token_urlsafe : ℕ → String
  -- os.urandom(16) and secrets.token_bytes(32)
  pub urandom : ℕ → List ℕ
  pub token_bytes : ℕ → List ℕ
  -- hashlib.sha256(text.encode()).hexdigest()
  pub sha256_hex : String → String
  -- str.lower()
  pub lower : String → String
  -- whether the two `wg-quick` commands of `apply_config` and its file writes succeed
  pub wg_quick : ℕ → Bool
  -- whether the path of the client artifact is a file
  pub is_file : ℕ → Bool
  -- base64.b64decode(text, validate=True), with none for ValueError, and base64.b64encode
  pub b64decode : String → Option (List ℕ)
  pub b64encode : List ℕ → String
  -- ipaddress.ip_interface(text), with none for a ValueError that carries
  -- `interface_error` of the text, and str of an interface
  pub ip_interface : String → Option Interface
  pub interface_error : String → String
  pub str_interface : Interface → String
  -- ipaddress.ip_network(text, strict=False), and str of a network, given by any of its addresses
  pub ip_network : String → Option Interface
  pub str_network : Interface → String
  -- hmac.compare_digest of two texts: none for TypeError, which a text that is not ASCII raises
  pub compare_digest : String → String → Option Bool
  -- the order of the database's ORDER BY on a text column
  pub name_before : String → String → Bool
  -- hashlib.pbkdf2_hmac("sha256", password.encode(), salt, rounds)
  pub pbkdf2_hmac : String → List ℕ → ℕ → List ℕ
  -- base64.urlsafe_b64encode and urlsafe_b64decode, with none for ValueError
  pub urlsafe_b64encode : List ℕ → String
  pub urlsafe_b64decode : String → Option (List ℕ)
  -- int(text), with none for ValueError and for what is not positive, which pbkdf2_hmac refuses
  pub positive_int : String → Option ℕ
