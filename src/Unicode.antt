-- ===== src/Unicode.antt =====
-- The two functions of Go's strings package that follow the Unicode tables: a parameter of the
-- modules that normalise what a user typed.
use omniup_vpn.Base.{Text}

pub record Unicode : Type 0 where
  pub trim_space : Text → Text
  pub to_lower : Text → Text
