-- ===== src/Control/State.antt =====
-- internal/control/store.go and users.go: the data of the store and its atomic save.
-- A time is the number of nanoseconds since the zero time.Time, which is 0. The operations take
-- the instant that time.Now gives, random bytes and the outcomes of the file operations from `Env`.
pub mod Durable
use omniup_vpn.Base.{
  ℕ, zero, suc, ◌+◌, ◌*◌, ◌/◌, ◌%◌, Bool, true, false, Option, none, some, List, [], ◌∷◌, ltb, ◌==◌,
  if◌then◌else◌, Text, codes,
}
use omniup_vpn.Base.Map.{Map}
use omniup_vpn.Base.Hex.{hex_encode}

abbrev pub second : ℕ
second = 1_000_000_000

abbrev pub hour : ℕ
hour = 3600 * second

-- OnlineThreshold, TokenRotateAfter, tokenGrace and sessionTTL
abbrev pub online_threshold : ℕ
online_threshold = 35 * second

abbrev pub token_rotate_after : ℕ
token_rotate_after = 24 * hour

abbrev pub token_grace : ℕ
token_grace = hour

abbrev pub session_ttl : ℕ
session_ttl = 7 * 24 * hour

pub record Device : Type 0 where
  pub id : Text
  pub hostname : Text
  pub owner : Text
  pub public_key : Text
  pub token : Text
  pub token_issued_at : ℕ
  pub prev_token : Text
  pub prev_token_until : ℕ
  pub ip : Text
  pub endpoint : Text
  pub endpoints : List Text
  pub advertised_routes : List Text
  pub approved_routes : List Text
  pub created_at : ℕ
  pub last_seen : ℕ

pub record AuthKey : Type 0 where
  pub key : Text
  pub owner : Text
  pub reusable : Bool
  pub used : Bool
  pub created_at : ℕ
  pub expires_at : ℕ

pub record AclRule : Type 0 where
  pub src : List Text
  pub dst : List Text

pub record AclPolicy : Type 0 where
  pub rules : List AclRule

pub record User : Type 0 where
  pub id : Text
  pub email : Text
  pub password_hash : Text
  pub created_at : ℕ

pub record Invite : Type 0 where
  pub code : Text
  pub used : Bool
  pub created_at : ℕ
  pub expires_at : ℕ

pub record WebSession : Type 0 where
  pub user_id : Text
  pub expires : ℕ

-- stateFile
pub record StateFile : Type 0 where
  pub admin_key : Text
  pub cidr : Text
  pub auth_keys : List AuthKey
  pub devices : Map Text Device
  pub acl : Option AclPolicy
  pub users : Map Text User
  pub invites : List Invite
  pub sessions : Map Text WebSession

-- The state file, by what its JSON stands for, and the temporary file beside it.
pub record Disk : Type 0 where
  pub file : Option StateFile
  pub temp : Bool

pub record Store : Type 0 where
  pub s : StateFile
  pub disk : Disk

-- Whether each file operation of saveLocked succeeds.
pub record SaveSteps : Type 0 where
  pub marshal : Bool
  pub mkdir : Bool
  pub create : Bool
  pub write : Bool
  pub chmod : Bool
  pub close : Bool
  pub rename : Bool
  pub remove : Bool

pub record Env : Type 0 where
  pub now : ℕ
  pub id_bytes : Text
  pub secret_bytes : Text
  pub io : SaveSteps

pub data Error : Type 0 where
  invalid_auth_key ip_exhausted bad_cidr stuck save_failed unknown_device no_match : Error
  bad_route : Text → Error
  invalid_invite email_taken bad_credentials weak_password bad_email hash_failed : Error
  device_not_owned : Error

pub data Result {ℓ} (A : Type ℓ) : Type ℓ where
  ok : A → Result A
  err : Error → Result A

-- The deferred os.Remove of the temporary file.
abbrev remove_temp : SaveSteps → Disk → Disk
remove_temp o d = if o.remove then record d { temp = false } else d

abbrev write_temp : SaveSteps → StateFile → Disk → Bool × Disk
write_temp o s d =
    if o.write
    then (if o.chmod
        then (if o.close
            then (if o.rename
                then (true, record { file = some s; temp = false })
                else (false, remove_temp o d))
            else (false, remove_temp o d))
        else (false, remove_temp o d))
    else (false, remove_temp o d)

-- saveLocked: marshal, make the directory, then write a temporary file and rename it.
unfoldable pub save : SaveSteps → StateFile → Disk → Bool × Disk
save o s d =
    if o.marshal
    then (if o.mkdir
        then (if o.create then write_temp o s (record d { temp = true }) else (false, d))
        else (false, d))
    else (false, d)

abbrev pub persist_result {ℓ} : {A : Type ℓ} → A → Store → Bool × Disk → Result A × Store
persist_result a st (true, d) = (ok a, record st { disk = d })
persist_result a st (false, d) = (err save_failed, record st { disk = d })

-- `if err := st.saveLocked(); err != nil { return nil, err }; return a, nil`
unfoldable pub persist {ℓ} : {A : Type ℓ} → SaveSteps → A → Store → Result A × Store
persist o a st = persist_result a st (save o st.s st.disk)

-- hex.EncodeToString of the bytes that crypto/rand gives; a failure of rand.Read panics.
unfoldable pub random_hex : Text → Text
unfolding hex_encode
random_hex b = hex_encode b

-- `time.Since(t) < d`: the difference may be negative, so it is read as `now < t + d`.
abbrev pub since_lt : ℕ → ℕ → ℕ → Bool
since_lt now t d = ltb now (t + d)

-- `t.IsZero() || time.Now().Before(t)`
abbrev pub unexpired : ℕ → ℕ → Bool
unexpired now zero = true
unexpired now (suc t) = ltb now (suc t)

-- A time.Duration, which may be negative: `negsuc n` is -(n + 1).
pub data Duration : Type 0 where
  pos : ℕ → Duration
  negsuc : ℕ → Duration

-- The expiry of a key made `now` to live `ttl`: none unless ttl > 0.
abbrev pub expiry : ℕ → Duration → ℕ
expiry now (pos zero) = 0
expiry now (pos (suc d)) = now + suc d
expiry now (negsuc n) = 0
