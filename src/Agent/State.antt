-- ===== src/Agent/State.antt =====
-- internal/agent/state.go: the identity that the agent keeps in a file. What the file system and
-- the JSON decoder answer is an input.
use omniup_vpn.Base.{ℕ, Bool, true, false, Option, none, some, Text, if◌then◌else◌}
use omniup_vpn.Control.State.{SaveSteps}

pub record State : Type 0 where
  pub server_url : Text
  pub private_key : Text
  pub device_id : Text
  pub device_token : Text
  pub ip : Text
  pub cidr : Text
  pub iface : Text
  pub listen_port : ℕ

-- The outcome of reading the file: there is none, it cannot be read, or its bytes, decoded.
pub data StateRead : Type 0 where
  missing unreadable : StateRead
  bytes : Option State → StateRead

-- LoadState: an error, no state, or a state.
pub data Loaded : Type 0 where
  load_failed first_start : Loaded
  loaded : State → Loaded

abbrev pub decoded : Option State → Loaded
decoded none = load_failed
decoded (some s) = loaded s

unfoldable pub load_state : StateRead → Loaded
load_state missing = first_start
load_state unreadable = load_failed
load_state (bytes s) = decoded s

-- The state file, and the temporary file beside it.
pub record StateDisk : Type 0 where
  pub file : Option State
  pub temp : Bool

abbrev pub drop_temp : SaveSteps → StateDisk → StateDisk
drop_temp o d = if o.remove then record d { temp = false } else d

abbrev pub fill_temp : SaveSteps → State → StateDisk → Bool × StateDisk
fill_temp o s d =
    if o.write
    then (if o.chmod
        then (if o.close
            then (if o.rename
                then (true, record { file = some s; temp = false })
                else (false, drop_temp o d))
            else (false, drop_temp o d))
        else (false, drop_temp o d))
    else (false, drop_temp o d)

-- Save: whether there was no error, and the files afterwards.
unfoldable pub save_state : SaveSteps → State → StateDisk → Bool × StateDisk
save_state o s d =
    if o.marshal
    then (if o.mkdir
        then (if o.create then fill_temp o s (record d { temp = true }) else (false, d))
        else (false, d))
    else (false, d)
