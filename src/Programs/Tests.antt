-- ===== src/Programs/Tests.antt =====
-- The two programs with a small message format, at a server that has just started.
use tt3d.Base.{
  ℕ, ◌+◌, ◌*◌, ◌/◌, ◌%◌, ◌<◌, ◌≡◌, ap, refl, arith, Bool, true, false, List, [], ◌∷◌, ◌++◌, Option,
  none, some, ◌==◌, ◌>>=◌, if◌then◌else◌, inl, inr, Option-cases,
}
use tt3d.Base.{append-nil}
use tt3d.Wire.{Bytes}
use tt3d.Wire.Plain.{plain, plain-IsCodec, plain-IsSendable}
use tt3d.Raw.{Connection}
use tt3d.Clients.{ClientRequest, ClientResponse, String}
use tt3d.Base.{subst}
use tt3d.Wire.RoundTrip.{IsSendable}
use tt3d.Raw.{span}
use tt3d.Methods.{HandlerTable, response_meta, find_method}
use tt3d.Rpc.{Client, request_meta}
use tt3d.Clients.{Game, same, exists}
use tt3d.Acceptors.{Listener}
use tt3d.ClientConnection.{ClientConnection, timer_of, try_each}
use tt3d.Programs.{Messages, request, server_main, meet, rpc_service_clients, do_request}
use tt3d.Programs.Ending.{Joined, programs-Joined, Waits, do_request-Waits}
use tt3d.Programs.Meeting.{IsMessages, Fits}
use tt3d.Clients.Registry.{IsUint32}

-- Each character after a 1, and a 0 at the end.
abbrev write_string : String → Bytes
write_string [] = 0 ∷ []
write_string (c ∷ s) = 1 ∷ c ∷ write_string s

abbrev read_string : Bytes → Option (String × Bytes)
read_string [] = none
read_string (n ∷ []) = if n == 0 then some ([], []) else none
read_string (n ∷ c ∷ b) =
    let rest = read_string b in
    if n == 0 then some ([], c ∷ b) else (rest >>= λ r. some (c ∷ r.0, r.1))

read_string-write_string :
    (s : String) (b : Bytes) → read_string (write_string s ++ b) ≡ some (s, b)
read_string-write_string [] [] = refl
read_string-write_string [] (c ∷ b) = refl
read_string-write_string (c ∷ s) b = ground (arith, read_string-write_string s b)

abbrev write_request : ClientRequest → Option Bytes
write_request r =
    some (write_string r.login ++ elim r.password [ none ↦ 0 ∷ [] | some p ↦ 1 ∷ write_string p ])

abbrev read_password : String → Bytes → Option ClientRequest
read_password login [] = none
read_password login (n ∷ b) =
    if n == 0
    then some (record { login = login; password = none })
    else (read_string b >>= λ r. some (record { login = login; password = some r.0 }))

abbrev read_request : Bytes → Option ClientRequest
read_request b = read_string b >>= λ r. read_password r.0 r.1

request_reads :
    (r : ClientRequest) → (b : Bytes) × (write_request r ≡ some b) × (read_request b ≡ some r)
request_reads r = elim (Option-cases r.password) [
  | inl e ↦ (_, refl, rw e (ground (arith, e, read_string-write_string r.login (0 ∷ []))))
  | inr (p, e) ↦ (
    _,
    refl,
    rw e (
        ground (
          arith,
          e,
          read_string-write_string r.login (1 ∷ write_string p),
          read_string-write_string p [],
          append-nil (write_string p),
        )),
  )
]

abbrev bit : Bool → ℕ
bit true = 1
bit false = 0

-- A `uint32` in four bytes.
abbrev word : ℕ → Bytes
word n = n % 256 ∷ n / 256 % 256 ∷ n / 65536 % 256 ∷ n / 16777216 % 256 ∷ []

abbrev number : ℕ → ℕ → ℕ → ℕ → ℕ
number a b c d = a + 256 * b + 65536 * c + 16777216 * d

number-word :
    (n : ℕ)
    → n < 4294967296
    → number (n % 256) (n / 256 % 256) (n / 65536 % 256) (n / 16777216 % 256) ≡ n
number-word n h = omega (arith, h)

abbrev write_id : Option ℕ → Bytes
write_id none = []
write_id (some i) = word i

abbrev write_response : ClientResponse → Option Bytes
write_response r = some (word r.code ++ bit r.text ∷ bit r.close ∷ write_id r.client_id)

abbrev read_id : Bytes → Option ℕ
read_id (a ∷ b ∷ c ∷ d ∷ []) = some (number a b c d)
read_id other = none

abbrev read_response : Bytes → Option ClientResponse
read_response (a ∷ b ∷ c ∷ d ∷ text ∷ close ∷ rest) = some (record {
  code = number a b c d;
  text = text == 1;
  close = close == 1;
  client_id = read_id rest;
})
read_response other = none

bit-bit : (b : Bool) → (bit b == 1) ≡ b
bit-bit true = refl
bit-bit false = refl

read_id-write_id :
    (o : Option ℕ) → ((i : ℕ) → o ≡ some i → i < 4294967296) → read_id (write_id o) ≡ o
read_id-write_id none h = refl
read_id-write_id (some i) h = ap some (number-word i (h i refl))

response_reads :
    (r : ClientResponse)
    → IsUint32 r
    → (b : Bytes) × (write_response r ≡ some b) × (read_response b ≡ some r)
response_reads r (small, ids) = (
  _,
  refl,
  ground (
    arith,
    number-word r.code small,
    bit-bit r.text,
    bit-bit r.close,
    read_id-write_id r.client_id ids,
  ),
)

abbrev messages : Messages
messages = record {
  write_request = write_request;
  read_request = read_request;
  write_response = write_response;
  read_response = read_response;
  read_viewport_request = λ b. none;
  write_viewport_response = λ r. none;
  other_parses = λ n b. false;
  other_answer = λ n b. none;
  full_name = λ n. n ∷ [];
  response_name = 7 ∷ [];
}

messages-IsMessages : IsMessages messages
messages-IsMessages = record {
  requests = request_reads (request messages);
  responses = response_reads;
}

same_content : (P : Bytes → Type 0) (x b : Bytes) → some x ≡ some b → P x → P b
same_content P x b e p = subst (λ o. elim o [ none ↦ Unit | some y ↦ P y ]) e p

messages-Fits : Fits messages plain 100
messages-Fits = record {
  request = λ b id e h.
      same_content (λ b. IsSendable plain (request_meta 100 id b)) _ b e
        (plain-IsSendable _ refl (omega arith));
  response = λ r q b id small e h.
      same_content (λ b. IsSendable plain (response_meta (request_meta 100 id q) b)) _ b e
        (response_fits r.client_id r q id);
}
  where
    response_fits :
        (o : Option ℕ) (r : ClientResponse) (q : Bytes) (id : ℕ)
        → IsSendable plain (
            response_meta
              (request_meta 100 id q)
              (word r.code ++ bit r.text ∷ bit r.close ∷ write_id o))
    response_fits none r q id = plain-IsSendable _ refl (omega arith)
    response_fits (some i) r q id = plain-IsSendable _ refl (omega arith)

-- The hash of a name is 100 more than its first byte.
abbrev sample_hash : Bytes → ℕ
sample_hash [] = 0
sample_hash (b ∷ bs) = 100 + b

abbrev nothing_else : Connection → Connection
nothing_else c = c

-- One endpoint that refuses, and one that accepts.
abbrev two_endpoints : List Bool
two_endpoints = false ∷ true ∷ []

abbrev whole : Bytes → List Bytes
whole b = b ∷ []

-- Somebody else is there already.
abbrev one_client : Game
one_client = record {
  clients =
      record { address = 0; client = record { login = 98 ∷ []; password = []; viewports = [] } }
      ∷ [];
  allocated = 1;
}

programs-Joined_example :
    (handlers : HandlerTable) × (l : Listener) × (c : Connection) × (server_main messages
        sample_hash true
      ≡ some (handlers, l))
    × (span ≡ some c)
    × Joined messages one_client (
        meet messages plain nothing_else nothing_else
          (timer_of true nothing_else)
          sample_hash
          whole
          whole
          two_endpoints
          handlers
          one_client
          c)
unfolding rpc_service_clients find_method try_each exists same
programs-Joined_example =
    programs-Joined messages plain nothing_else nothing_else true sample_hash whole whole
      two_endpoints one_client plain-IsCodec messages-IsMessages messages-Fits (λ d. refl)
      append-nil append-nil (refl, (refl, (refl, (refl, (refl, tt))))) (omega arith) refl
      (record { addresses = (omega arith, tt); apart = (tt, tt); logins = (tt, tt) }) refl
      (omega arith)

do_request-Waits_example :
    (client_connection : ClientConnection) × (s : Client) × (do_request messages plain
        (timer_of true nothing_else)
        sample_hash
        two_endpoints
      ≡ some (client_connection, s))
    × Waits messages true s
unfolding try_each
do_request-Waits_example =
    do_request-Waits messages plain nothing_else true sample_hash two_endpoints _ (omega arith) refl
