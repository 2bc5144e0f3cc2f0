-- ===== src/Commands/View.antt =====
-- cmd/omnid-gui/view.go: the tray's view. The three marks and dashes of its French texts are not
-- ASCII: a title is the data that it shows, a peer's line its mark, name and address.
use omniup_vpn.Base.{
  ℕ, ◌+◌, ◌≡◌, refl, Bool, true, false, Option, none, some, List, [], ◌∷◌, if◌then◌else◌, Text,
  is_blank, length, arith, map,
}
use omniup_vpn.Control.Fleet.{text_lt}
use omniup_vpn.Control.Api.{Peer, NetMap}

pub data Title : Type 0 where
  disconnected unreachable : Title
  connected : ℕ → ℕ → Title

pub data Line : Type 0 where
  inactive no_server no_peer : Line
  peer_line : Bool → Text → Text → Line

pub record TrayView : Type 0 where
  pub is_connected : Bool
  pub title : Title
  pub self_name : Text
  pub self_ip : Text
  pub peers : List Line

abbrev pub name_or_ip : Text → Text → Text
name_or_ip name ip = if is_blank name then ip else name

-- sort.Slice by address; peers with one address may come in any order.
unfoldable pub insert_peer : Peer → List Peer → List Peer
insert_peer p [] = p ∷ []
insert_peer p (x ∷ xs) =
    let rest = insert_peer p xs in if text_lt x.ip p.ip then x ∷ rest else p ∷ x ∷ xs

unfoldable pub sorted_peers : List Peer → List Peer
sorted_peers [] = []
sorted_peers (p ∷ ps) = insert_peer p (sorted_peers ps)

abbrev pub line_of : Peer → Line
line_of p = peer_line p.online (name_or_ip p.hostname p.ip) p.ip

unfoldable pub online_peers : List Peer → ℕ
online_peers [] = 0
online_peers (p ∷ ps) = let rest = online_peers ps in if p.online then rest + 1 else rest

abbrev pub lines_of : List Peer → List Line
lines_of [] = no_peer ∷ []
lines_of (p ∷ ps) = map line_of (p ∷ ps)

abbrev pub view_of : Text → Text → Option NetMap → TrayView
view_of name ip none = record {
  is_connected = true;
  title = unreachable;
  self_name = name;
  self_ip = ip;
  peers = no_server ∷ [];
}
view_of name ip (some nm) = record {
  is_connected = true;
  title = connected (online_peers (sorted_peers nm.peers)) (length (sorted_peers nm.peers));
  self_name = name;
  self_ip = ip;
  peers = lines_of (sorted_peers nm.peers);
}

-- buildView
unfoldable pub build_view : Text → Text → Bool → Option NetMap → TrayView
build_view hostname ip iface_up nm =
    if iface_up then view_of (name_or_ip hostname ip) ip nm else record {
      is_connected = false;
      title = disconnected;
      self_name = name_or_ip hostname ip;
      self_ip = ip;
      peers = inactive ∷ [];
    }

length-insert_peer : (p : Peer) (ps : List Peer) → length (insert_peer p ps) ≡ length ps + 1
unfolding insert_peer
length-insert_peer p [] = refl
length-insert_peer p (x ∷ xs) = ground (arith, length-insert_peer p xs)

online-cons :
    (p : Peer) (ps : List Peer)
    → online_peers (p ∷ ps) ≡ (if p.online then online_peers ps + 1 else online_peers ps)
unfolding online_peers
online-cons p ps = refl

online-insert_peer :
    (p : Peer) (ps : List Peer) → online_peers (insert_peer p ps) ≡ online_peers (p ∷ ps)
unfolding insert_peer
online-insert_peer p [] = refl
online-insert_peer p (x ∷ xs) = ground (
  arith,
  online-insert_peer p xs,
  online-cons x (insert_peer p xs),
  online-cons x xs,
  online-cons p xs,
  online-cons p (x ∷ xs),
)

sorted_counts :
    (ps : List Peer)
    → (length (sorted_peers ps) ≡ length ps) × (online_peers (sorted_peers ps) ≡ online_peers ps)
unfolding sorted_peers
sorted_counts [] = (refl, refl)
sorted_counts (p ∷ ps) =
    let ih = sorted_counts ps in
    ground (
      arith,
      ih,
      length-insert_peer p (sorted_peers ps),
      online-insert_peer p (sorted_peers ps),
      online-cons p (sorted_peers ps),
      online-cons p ps,
    )

-- The tray never says that the machine is connected while its interface is down, and says so
-- otherwise, also without the server; when there is a map, the title counts the peers of the map and
-- those of them that are online.
pub build_view_lem :
    (hostname ip : Text) (iface_up : Bool) (nm : NetMap)
    → ((build_view hostname ip iface_up (some nm)).is_connected ≡ iface_up)
      × ((build_view hostname ip iface_up none).is_connected ≡ iface_up)
      × ((build_view hostname ip iface_up (some nm)).title ≡ (
          if iface_up then connected (online_peers nm.peers) (length nm.peers) else disconnected))
unfolding build_view
build_view_lem hostname ip true nm =
    let counts = sorted_counts nm.peers in (refl, refl, rw (counts.0, counts.1) refl)
build_view_lem hostname ip false nm = (refl, refl, refl)
