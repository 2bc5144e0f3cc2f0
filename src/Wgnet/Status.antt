-- ===== src/Wgnet/Status.antt =====
-- internal/wgnet/uapi_client.go: QueryStatus; and PeerHandshakes of internal/wgnet/wgnet.go. The
-- lines that the engine answers with are an input, and so are dialling, writing and reading.
use omniup_vpn.Base.{
  ℕ, not, ◌||◌, Option, none, some, List, [], ◌∷◌, if◌then◌else◌, Text, codes, text_eq, text_key,
  is_blank,
}
use omniup_vpn.Base.Int.{ℤ, is_positive, pos_part}
use omniup_vpn.Base.Map.{Map, put}
use omniup_vpn.Base.Strings.{cut, split}
use omniup_vpn.Wgnet.Keys.{WgKeys, base64_key}
use omniup_vpn.Wgnet.Device.{newline}

-- An instant in seconds since 1970; zero is the zero time.Time.
pub record PeerStatus : Type 0 where
  pub public_key : Text
  pub endpoint : Text
  pub last_handshake : ℕ
  pub rx_bytes : ℤ
  pub tx_bytes : ℤ

-- While the lines are read the peers stand from the last back to the first, so that `cur` is the
-- head.
pub record DeviceStatus : Type 0 where
  pub listen_port : ℤ
  pub peers : List PeerStatus

pub data Queried : Type 0 where
  reading : DeviceStatus → Queried
  finished : DeviceStatus → Queried
  refused : Queried

-- A write through `cur`, where it is not nil.
abbrev pub on_current : (PeerStatus → PeerStatus) → List PeerStatus → List PeerStatus
on_current f [] = []
on_current f (p ∷ ps) = f p ∷ ps

-- `number` is what strconv.ParseInt, Atoi and Sscanf give beside an error that is not looked at.
module _ (w : WgKeys) (number : Text → ℤ) where
  abbrev pub with_peers : (PeerStatus → PeerStatus) → DeviceStatus → DeviceStatus
  with_peers f st = record st { peers = on_current f st.peers }

  abbrev pub handshake_of : Text → PeerStatus → PeerStatus
  handshake_of v p =
      if is_positive (number v) then record p { last_handshake = pos_part (number v) } else p

  -- The switch of QueryStatus over a key and its value.
  unfoldable pub status_entry : Text → Text → DeviceStatus → Queried
  status_entry k v st =
      if text_eq k (codes "listen_port")
      then reading (record st { listen_port = number v })
      else if text_eq k (codes "public_key")
      then reading (record st {
        peers =
            record {
              public_key = base64_key w v;
              endpoint = [];
              last_handshake = 0;
              rx_bytes = ℤ.pos 0;
              tx_bytes = ℤ.pos 0;
            }
            ∷ st.peers;
      })
      else if text_eq k (codes "endpoint")
      then reading (with_peers (λ p. record p { endpoint = v }) st)
      else if text_eq k (codes "last_handshake_time_sec")
      then reading (with_peers (handshake_of v) st)
      else if text_eq k (codes "rx_bytes")
      then reading (with_peers (λ p. record p { rx_bytes = number v }) st)
      else if text_eq k (codes "tx_bytes")
      then reading (with_peers (λ p. record p { tx_bytes = number v }) st)
      else if text_eq k (codes "errno")
      then (if text_eq v (codes "0") then reading st else refused)
      else reading st

  abbrev pub status_pair : Option (Text × Text) → DeviceStatus → Queried
  status_pair none st = reading st
  status_pair (some (k, v)) st = status_entry k v st

  unfoldable pub status_line : Text → DeviceStatus → Queried
  status_line line st = if is_blank line then finished st else status_pair (cut b'=' line) st

  abbrev pub then_read : (DeviceStatus → Queried) → Queried → Queried
  then_read next (reading st) = next st
  then_read next (finished st) = finished st
  then_read next refused = refused

  -- The scan of QueryStatus; a scan that ends without a blank line is finished as well.
  unfoldable pub status_lines : List Text → DeviceStatus → Queried
  status_lines [] st = finished st
  status_lines (l ∷ ls) st = then_read (status_lines ls) (status_line l st)

  abbrev pub turn : List PeerStatus → List PeerStatus → List PeerStatus
  turn [] out = out
  turn (p ∷ ps) out = turn ps (p ∷ out)

  abbrev pub in_order : Queried → Queried
  in_order (reading st) = reading st
  in_order (finished st) = finished (record st { peers = turn st.peers [] })
  in_order refused = refused

  -- QueryStatus of an engine that answered with these lines.
  unfoldable pub query_status : List Text → Queried
  query_status ls = in_order (status_lines ls (record { listen_port = ℤ.pos 0; peers = [] }))

  abbrev pub handshake_seconds : ℤ → ℕ
  handshake_seconds n = if is_positive n then pos_part n else 0

  -- The switch of PeerHandshakes: the current peer and the map.
  unfoldable pub handshake_entry : Text → Text → Text × Map Text ℕ → Text × Map Text ℕ
  handshake_entry k v (current, out) =
      if text_eq k (codes "public_key")
      then (base64_key w v, out)
      else if not (text_eq k (codes "last_handshake_time_sec")) || is_blank current
      then (current, out)
      else (current, put current (handshake_seconds (number v)) out)

  abbrev pub handshake_pair : Option (Text × Text) → Text × Map Text ℕ → Text × Map Text ℕ
  handshake_pair none r = r
  handshake_pair (some (k, v)) r = handshake_entry k v r

  unfoldable pub handshake_lines : List Text → Text × Map Text ℕ → Text × Map Text ℕ
  handshake_lines [] r = r
  handshake_lines (l ∷ ls) r = handshake_lines ls (handshake_pair (cut b'=' l) r)

  -- PeerHandshakes of an engine with this status text.
  unfoldable pub peer_handshakes : Text → Map Text ℕ
  peer_handshakes status = (handshake_lines (split newline status) ([], [])).1
