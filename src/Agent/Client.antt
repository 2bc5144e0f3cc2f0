-- ===== src/Agent/Client.antt =====
-- internal/agent/client.go: how the agent reads the server's answers; and the wait of enrollSSO in
-- internal/agent/agent.go. The HTTP exchange itself is an input.
use omniup_vpn.Base.{
  ℕ, Option, none, some, List, [], ◌∷◌, ◌++◌, ◌==◌, if◌then◌else◌, Text, codes, is_blank,
}
use omniup_vpn.Base.Strings.{trim_right}
use omniup_vpn.Control.Admin.{RegisterResponse}

pub record Client : Type 0 where
  pub server_url : Text
  pub token : Text

-- NewClient
unfoldable pub new_client : Text → Text → Client
new_client server_url token = record { server_url = trim_right b'/' server_url; token = token }

-- What an exchange gives: no answer, or a status and the body, read as the value that is wanted and
-- as an error text.
pub data Exchange {ℓ} (A : Type ℓ) : Type ℓ where
  no_answer : Exchange A
  answer : ℕ → Option A → Option Text → Exchange A

pub data Called {ℓ} (A : Type ℓ) : Type ℓ where
  done : A → Called A
  transport_failed : Called A
  server_failed : ℕ → Text → Called A
  undecodable : Called A

-- The error text, blank when there is none to show.
abbrev pub error_text : Option Text → Text
error_text none = []
error_text (some m) = m

abbrev pub decoded_body {ℓ} : {A : Type ℓ} → Option A → Called A
decoded_body none = undecodable
decoded_body (some a) = done a

-- The value of the Authorization header; none without a token.
abbrev pub authorization : Client → Option Text
authorization c = if is_blank c.token then none else some (codes "Bearer " ++ c.token)

-- do
unfoldable pub call {ℓ} : {A : Type ℓ} → Exchange A → Called A
call no_answer = transport_failed
call (answer status body message) =
    if status == 200 then decoded_body body else server_failed status (error_text message)

-- EnrollWait: whether it is still pending, or the outcome.
pub data EnrollPoll : Type 0 where
  still_pending : EnrollPoll
  settled : Called RegisterResponse → EnrollPoll

unfoldable pub enroll_wait : Exchange RegisterResponse → EnrollPoll
enroll_wait no_answer = settled transport_failed
enroll_wait (answer status body message) =
    if status == 202
    then still_pending
    else if status == 200
    then settled (decoded_body body)
    else settled (server_failed status (error_text message))

abbrev pub or_again :
    Option (Called RegisterResponse) → EnrollPoll → Option (Called RegisterResponse)
or_again rest still_pending = rest
or_again rest (settled c) = some c

-- The loop of enrollSSO over the exchanges of its ticks; `none` is the end of the context.
unfoldable pub enroll_sso : List (Exchange RegisterResponse) → Option (Called RegisterResponse)
enroll_sso [] = none
enroll_sso (x ∷ xs) = or_again (enroll_sso xs) (enroll_wait x)
