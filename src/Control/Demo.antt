-- ===== src/Control/Demo.antt =====
-- A small control server for the tests: a text form of addresses that recognises one prefix, a
-- password hash that is easy to read, and stores with none, one and two machines.
use omniup_vpn.Base.{
  is_blank, ℕ, ◌+◌, ◌≡◌, refl, sym, ◌∙◌, true, false, Option, some, none, [], ◌∷◌, ◌++◌, Text,
  codes, text_eq, text_eq_refl, if◌then◌else◌, arith, Bool-cases, inl, inr, ap,
}
use omniup_vpn.Base.Bytes.{from_be, be_bytes, from_be-be_bytes}
use omniup_vpn.Net.{Addr, no_addr, ip, v4, v6, Prefix, InWidth}
use omniup_vpn.NetText.{NetText, IsPrefix}
use omniup_vpn.Unicode.{Unicode}
use omniup_vpn.Control.State.{Env, SaveSteps, Store, StateFile, AuthKey, Device}
use omniup_vpn.Control.Users.{Bcrypt}

abbrev pub range_text : Text
range_text = codes "10.0.0.0/30"

abbrev pub range : Prefix
range = record { addr = ip v4 167772160; bits = 30 }

abbrev pub parse_range : Text → Option Prefix
parse_range s = if text_eq s range_text then some range else none

abbrev pub addr_text : Addr → Text
addr_text no_addr = []
addr_text (ip v4 n) = 4 ∷ be_bytes 4 n
addr_text (ip v6 n) = 6 ∷ be_bytes 16 n

tail_of : Text → Text
tail_of [] = []
tail_of (x ∷ xs) = xs

pub addr_text-injective : (a b : Addr) → InWidth a → InWidth b → addr_text a ≡ addr_text b → a ≡ b
unfolding tail_of
addr_text-injective no_addr b wa wb h = absurd wa
addr_text-injective (ip f n) no_addr wa wb h = absurd wb
addr_text-injective (ip v4 n) (ip v4 m) wa wb h = ap (ip v4) (
    sym (from_be-be_bytes 4 n (omega (arith, wa)))
    ∙ ap (λ t. from_be 0 (tail_of t)) h
    ∙ from_be-be_bytes 4 m (omega (arith, wb)))
addr_text-injective (ip v4 n) (ip v6 m) wa wb h = absurd (ground arith)
addr_text-injective (ip v6 n) (ip v4 m) wa wb h = absurd (ground arith)
addr_text-injective (ip v6 n) (ip v6 m) wa wb h = ap (ip v6) (
    sym (from_be-be_bytes 16 n (omega (arith, wa)))
    ∙ ap (λ t. from_be 0 (tail_of t)) h
    ∙ from_be-be_bytes 16 m (omega (arith, wb)))

range-IsPrefix : IsPrefix range
range-IsPrefix = record {
  family = v4;
  base = 167772160;
  is_ip = refl;
  in_width = omega arith;
  bits_le = omega arith;
}

pub parse_range-IsPrefix : (s : Text) (p : Prefix) → parse_range s ≡ some p → IsPrefix p
parse_range-IsPrefix s p h = elim (Bool-cases (text_eq s range_text)) [
  | inl q ↦ let e : range ≡ p = ground (arith, rw q at h) in rw (← e) range-IsPrefix
  | inr q ↦ absurd (ground (arith, rw q at h))
]

abbrev pub net_text : NetText
net_text = record {
  parse_prefix = parse_range;
  addr_string = addr_text;
  prefix_string = λ p. addr_text p.addr;
  addr_string_injective = addr_text-injective;
  parse_prefix-IsPrefix = parse_range-IsPrefix;
}

-- Texts that are already trimmed and in lower case.
abbrev pub plain : Unicode
plain = record { trim_space = λ s. s; to_lower = λ s. s }

abbrev pub works : SaveSteps
works = record {
  marshal = true;
  mkdir = true;
  create = true;
  write = true;
  chmod = true;
  close = true;
  rename = true;
  remove = true;
}

-- A full disk: the write of the temporary file fails.
abbrev pub full : SaveSteps
full = record works { write = false }

abbrev pub at : ℕ → SaveSteps → Env
at now io = record { now = now; id_bytes = now ∷ []; secret_bytes = now ∷ 7 ∷ []; io = io }

abbrev pub key_text : Text
key_text = codes "omkey-1"

abbrev pub owner : Text
owner = codes "u1"

-- An enrolment key that serves once.
abbrev pub once : AuthKey
once = record {
  key = key_text;
  owner = owner;
  reusable = false;
  used = false;
  created_at = 1;
  expires_at = 0;
}

abbrev pub state : StateFile
state = record {
  admin_key = codes "omadmin-1";
  cidr = range_text;
  auth_keys = once ∷ [];
  devices = [];
  acl = none;
  users = [];
  invites = [];
  sessions = [];
}

abbrev pub store : Store
store = record { s = state; disk = record { file = some state; temp = false } }

abbrev pub machine : Text → ℕ → Device
machine hostname n = record {
  id = n ∷ [];
  hostname = hostname;
  owner = owner;
  public_key = n ∷ n ∷ [];
  token = codes "omtok-0" ++ n ∷ [];
  token_issued_at = 1;
  prev_token = [];
  prev_token_until = 0;
  ip = addr_text (ip v4 (167772160 + n));
  endpoint = [];
  endpoints = [];
  advertised_routes = codes "10.1.0.0/24" ∷ codes "10.2.0.0/24" ∷ [];
  approved_routes = codes "10.2.0.0/24" ∷ [];
  created_at = 1;
  last_seen = 0;
}

abbrev pub laptop : Device
laptop = machine (codes "laptop") 1

abbrev pub desk : Device
desk = machine (codes "desk") 2

abbrev pub two : Store
two = record store {
  s = record state { devices = (laptop.public_key, laptop) ∷ (desk.public_key, desk) ∷ [] };
}

generated : (password hash : Text) → some (1 ∷ password) ≡ some hash → 1 ∷ password ≡ hash
generated password hash h = ground arith

pub plain-compare :
    (salt password hash : Text)
    → some (1 ∷ password) ≡ some hash
    → text_eq hash (1 ∷ password) ≡ true
plain-compare salt password hash h =
    rw (← (generated password hash h)) (text_eq_refl (1 ∷ password))

pub plain-nonblank :
    (salt password hash : Text) → some (1 ∷ password) ≡ some hash → is_blank hash ≡ false
plain-nonblank salt password hash h = rw (← (generated password hash h)) refl

-- A hash that is the password with a byte in front.
abbrev pub hashes : Bcrypt
hashes = record {
  generate = λ salt password. some (1 ∷ password);
  compare_hash = λ hash password. text_eq hash (1 ∷ password);
  compare-generate = plain-compare;
  hash_nonblank = plain-nonblank;
}
