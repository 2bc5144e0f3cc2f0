-- ===== src/Wgnet/Exit.antt =====
-- internal/wgnet/exitnode_linux.go: the policy routing of an exit node. The answers of the engine and
-- of netlink are inputs; the system's state is whether each setting is in place.
use omniup_vpn.Base.{◌≡◌, Bool, true, false, ◌⊎◌, ◌&&◌, arith, if◌then◌else◌}

pub record ExitState : Type 0 where
  -- the socket's packets bear the mark
  pub fwmark : Bool
  -- the default route of table 7766
  pub table_route : Bool
  -- the rule that keeps the more precise routes of the main table, and the one that sends what bears
  -- no mark to table 7766
  pub suppress : Bool
  pub divert : Bool

-- What netlink.RuleAdd answers.
pub data Added : Type 0 where
  added already_there add_failed : Added

abbrev pub is_in_place : Added → Bool
is_in_place add_failed = false
is_in_place _ = true

-- What the calls of EnableExitNode answer.
pub record ExitCalls : Type 0 where
  pub ipc_set : Bool
  pub link_found : Bool
  pub route_replaced : Bool
  pub suppress_added : Added
  pub divert_added : Added

abbrev pub diverted : ExitCalls → ExitState → Bool × ExitState
diverted c s = if is_in_place c.divert_added then (true, record s { divert = true }) else (false, s)

abbrev pub suppressed : ExitCalls → ExitState → Bool × ExitState
suppressed c s =
    if is_in_place c.suppress_added then diverted c (record s { suppress = true }) else (false, s)

abbrev pub routed : ExitCalls → ExitState → Bool × ExitState
routed c s =
    if c.link_found && c.route_replaced
    then suppressed c (record s { table_route = true })
    else (false, s)

-- EnableExitNode: whether there was no error, and the state that it leaves.
unfoldable pub enable_exit_node : ExitCalls → ExitState → Bool × ExitState
enable_exit_node c s = if c.ipc_set then routed c (record s { fwmark = true }) else (false, s)

-- DisableExitNode, with the answers of the two calls of netlink.RuleDel.
unfoldable pub disable_exit_node : Bool → Bool → ExitState → ExitState
disable_exit_node divert_deleted suppress_deleted s = record s {
  divert = if divert_deleted then false else s.divert;
  suppress = if suppress_deleted then false else s.suppress;
}

-- The agent's own packets never enter the tunnel that they carry: nothing is diverted unless the
-- socket is marked and table 7766 has its route.
abbrev pub IsLoopFree : ExitState → Type 0
IsLoopFree s = s.divert ≡ true → (s.fwmark ≡ true) × (s.table_route ≡ true)

-- Whichever of its calls fail, switching the exit node on or off leaves no routing loop where there
-- was none; and where it succeeds, everything is in place.
pub exit_node-IsLoopFree :
    (c : ExitCalls) (s : ExitState) (divert_deleted suppress_deleted : Bool)
    → IsLoopFree s
    → IsLoopFree (enable_exit_node c s).1
      × IsLoopFree (disable_exit_node divert_deleted suppress_deleted s)
      × (((enable_exit_node c s).0 ≡ false)
          ⊎ ((enable_exit_node c s).1
              ≡ record { fwmark = true; table_route = true; suppress = true; divert = true }))
unfolding enable_exit_node disable_exit_node
exit_node-IsLoopFree c s divert_deleted suppress_deleted h =
    (λ d. ground (arith, h), λ d. ground (arith, h), ground arith)

-- A start that fails at the last rule, after which Up returns and never switches the exit node off,
-- leaves the rule before it in the system.
pub rule_left_behind :
    (c : ExitCalls) (s : ExitState)
    → c.ipc_set ≡ true
    → c.link_found ≡ true
    → c.route_replaced ≡ true
    → c.suppress_added ≡ added
    → c.divert_added ≡ add_failed
    → ((enable_exit_node c s).0 ≡ false) × ((enable_exit_node c s).1.suppress ≡ true)
unfolding enable_exit_node
rule_left_behind c s i l r a d = ground arith
