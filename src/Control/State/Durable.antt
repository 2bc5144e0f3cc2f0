-- ===== src/Control/State/Durable.antt =====
-- What a save leaves on the disk.
use omniup_vpn.Base.{◌≡◌, ◌⊎◌, true, false, not, ◌&&◌, some, arith}
use omniup_vpn.Control.State.{StateFile, Disk, Store, SaveSteps, ok, save, persist}

-- Whatever step fails, the state file is the old one or, exactly when the save reports success,
-- the whole new state; then no temporary file is left, and after a failure none is left either if
-- the removal works and none was there before.
pub save_atomic :
    (o : SaveSteps) (s : StateFile) (d : Disk)
    → (((save o s d).0 ≡ true) × ((save o s d).1.file ≡ some s) × ((save o s d).1.temp ≡ false))
      ⊎ (((save o s d).0 ≡ false)
          × ((save o s d).1.file ≡ d.file)
          × (o.remove && not d.temp && (save o s d).1.temp ≡ false))
unfolding save
save_atomic o s d = ground arith

pub persist_ok {ℓ} :
    {A : Type ℓ} (o : SaveSteps) (a b : A) (st : Store)
    → (persist o a st).0 ≡ ok b
    → (a ≡ b) × ((persist o a st).1.disk.file ≡ some st.s)
unfolding persist save
persist_ok o a b st h = ground arith

pub persist-s {ℓ} : {A : Type ℓ} (o : SaveSteps) (a : A) (st : Store) → (persist o a st).1.s ≡ st.s
unfolding persist save
persist-s o a st = ground arith
