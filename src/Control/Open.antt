-- ===== src/Control/Open.antt =====
-- OpenStoreCIDR of internal/control/store.go.
use omniup_vpn.Base.{
  is_blank, ◌≡◌, Bool, true, false, none, some, [], ◌++◌, if◌then◌else◌, Text, codes, arith, ◌⊎◌,
}
use omniup_vpn.Control.State.{StateFile, Disk, Store, Env, random_hex, save}

-- What os.ReadFile and json.Unmarshal make of the state file.
pub data Read : Type 0 where
  content : StateFile → Read
  corrupt missing unreadable : Read

pub data OpenError : Type 0 where
  invalid_cidr corrupt_state read_failed save_failed : OpenError

pub data Opened : Type 0 where
  opened : Store → Bool → Opened
  refused : OpenError → Opened

abbrev pub empty_state : StateFile
empty_state = record {
  admin_key = [];
  cidr = [];
  auth_keys = [];
  devices = [];
  acl = none;
  users = [];
  invites = [];
  sessions = [];
}

-- The admin key and the range are set where the state has none.
abbrev pub with_admin : Env → StateFile → StateFile
with_admin e s =
    if is_blank s.admin_key
    then record s { admin_key = codes "omadmin-" ++ random_hex e.secret_bytes }
    else s

abbrev pub with_cidr : Text → StateFile → StateFile
with_cidr cidr s = if is_blank s.cidr then record s { cidr = cidr } else s

abbrev pub open_saved : StateFile → Disk → Bool × Disk → Opened
open_saved s old (true, d) = opened (record { s = s; disk = d }) true
open_saved s old (false, d) = refused save_failed

unfoldable pub open_with : Env → Text → Disk → StateFile → Opened
open_with e cidr d s =
    let s' = with_cidr cidr (with_admin e s) in
    if is_blank s.admin_key
    then open_saved s' d (save e.io s' d)
    else opened (record { s = s'; disk = d }) false

abbrev pub opened_read : Env → Text → Disk → Read → Opened
opened_read e cidr d (content s) = open_with e cidr d s
opened_read e cidr d missing = open_with e cidr d empty_state
opened_read e cidr d corrupt = refused corrupt_state
opened_read e cidr d unreadable = refused read_failed

-- `valid` tells whether net.ParseCIDR accepts the range.
unfoldable pub open_store : Bool → Env → Text → Disk → Read → Opened
open_store valid e cidr d r = if valid then opened_read e cidr d r else refused invalid_cidr

-- A store that opens on a state file has an admin key: the file's, or a new one exactly when the
-- file has none, and then the state is on the disk. Its range is the file's, whatever range was
-- asked for, unless the file has none.
pub open_store_lem :
    (e : Env) (cidr : Text) (d : Disk) (s : StateFile) (st : Store) (created : Bool)
    → open_store true e cidr d (content s) ≡ opened st created
    → (is_blank st.s.admin_key ≡ false)
      × (created ≡ is_blank s.admin_key)
      × (st.s.cidr ≡ (if is_blank s.cidr then cidr else s.cidr))
      × (st.s.admin_key ≡ (
          if is_blank s.admin_key
          then codes "omadmin-" ++ random_hex e.secret_bytes
          else s.admin_key))
      × ((created ≡ false) ⊎ (st.disk.file ≡ some st.s))
unfolding open_store open_with save
open_store_lem e cidr d s st created h = ground arith
