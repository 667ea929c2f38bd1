-- ===== src/Clients.antt =====
-- The clients of the game: src/core/ConcurrentContainer.hpp and .cpp, src/server/Client.hpp,
-- src/server/ViewPort.hpp, and the calls of src/server/network/RpcServiceClients.hpp.
-- A pointer to a client is its address and what stands there; the container holds the only pointers
-- that outlive a call. Its mutex makes each call of `Add` one step.
pub mod Registry
mod Tests
use tt3d.Base.{
  ℕ, zero, suc, ◌+◌, ◌-◌, ◌%◌, Bool, true, false, not, ◌&&◌, ◌||◌, List, [], ◌∷◌, ◌++◌, Option,
  none, some, length, get_elem?, leb, ◌==◌, if◌then◌else◌, map,
}
use tt3d.Coordinate.{
  Coordinate, coordinate, Outcome, value, undefined, out_of_range, chain, at_unchecked, at,
}

abbrev pub String : Type 0
String = List ℕ

unfoldable pub same : String → String → Bool
same [] [] = true
same [] (d ∷ t) = false
same (c ∷ s) [] = false
same (c ∷ s) (d ∷ t) = c == d && same s t

unfoldable pub exists : {A : Type 0} → (A → Bool) → List A → Bool
exists f [] = false
exists f (a ∷ as') = f a || exists f as'

-- `ConcurrentContainer`: how its items are compared, and its `UniqPredicate` (the new item first).
pub record Items (A : Type 0) : Type 0 where
  pub equal : A → A → Bool
  pub clashes : A → A → Bool

-- `Add`, with the index counted from 1, or 0.
pub add : {A : Type 0} → Items A → A → List A → ℕ × List A
unfolding exists
add I item items =
    let added = items ++ item ∷ [] in
    if not (exists (I.equal item) items) && not (exists (I.clashes item) items)
    then (length added, added)
    else (0, items)

-- `Get`; the item of the default constructor is a null pointer.
pub get : {A : Type 0} → ℕ → List A → Option A
get index items =
    if not (index == 0) && leb index (length items) then get_elem? items (index - 1) else none

pub data ViewSize : Type 0 where
  unset : ViewSize
  evs : ℕ → ViewSize
  ivs : ℕ → ViewSize

pub record ViewPort : Type 0 where
  pub name : String
  pub pos : Coordinate ℕ
  pub direction : Coordinate ℕ
  pub viewsize : ViewSize

abbrev pub new_viewport : ViewPort
new_viewport = record { name = []; pos = coordinate; direction = coordinate; viewsize = unset }

pub record Client : Type 0 where
  pub login : String
  pub password : String
  pub viewports : List (String × ViewPort)

pub record ClientPtr : Type 0 where
  pub address : ℕ
  pub client : Client

-- `IsUniqueLoginPredicate`.
pub unique_login : ClientPtr → ClientPtr → Bool
unfolding same
unique_login target p = same p.client.login target.client.login

abbrev pub clients_items : Items ClientPtr
clients_items = record { equal = λ p q. p.address == q.address; clashes = unique_login }

-- `Game` with its `Clients`, and the addresses that have been given out.
pub record Game : Type 0 where
  pub clients : List ClientPtr
  pub allocated : ℕ

pub record ClientRequest : Type 0 where
  pub login : String
  pub password : Option String

pub record ClientResponse : Type 0 where
  pub code : ℕ
  pub text : Bool
  pub close : Bool
  pub client_id : Option ℕ

abbrev pub int_bits : ℕ
int_bits = 4294967296

abbrev pub new_client : ClientRequest → Client
new_client r = record {
  login = r.login;
  password = elim r.password [ none ↦ [] | some p ↦ p ];
  viewports = [];
}

-- `Register`; the user's id is the size as an `int`, and then a `uint32`.
pub register : ClientRequest → Game → ClientResponse × Game
unfolding add
register request game =
    let new_ptr : ClientPtr = record { address = game.allocated; client = new_client request } in
    let (size, clients) = add clients_items new_ptr game.clients in
    let game' : Game = record { clients = clients; allocated = game.allocated + 1 } in
    if size % int_bits == 0
    then (record { code = 1; text = true; close = true; client_id = none }, game')
    else (
      record { code = 0; text = false; close = false; client_id = some (size % int_bits) },
      game',
    )

pub record ViewportRequest : Type 0 where
  pub client_id : ℕ
  pub name : String
  pub x : ℕ
  pub y : ℕ
  pub viewsize : Option ℕ
  pub iviewsize : Option ℕ

pub record ViewportResponse : Type 0 where
  pub code : ℕ
  pub viewport_id : Option ℕ

set_at : Coordinate ℕ → ℕ → ℕ → Coordinate ℕ
set_at [] i v = []
set_at (a ∷ c) zero v = v ∷ c
set_at (a ∷ c) (suc i) v = a ∷ set_at c i v

-- `pos.x() = v` and `pos.y() = v`.
set_x : Coordinate ℕ → ℕ → Outcome (Coordinate ℕ)
unfolding set_at
set_x c v = chain (at_unchecked c 0) (λ old. value (set_at c 0 v))

set_y : Coordinate ℕ → ℕ → Outcome (Coordinate ℕ)
unfolding set_at
set_y c v = chain (at c 1) (λ old. value (set_at c 1 v))

-- `viewports[ name ] = viewport`
put : String → ViewPort → List (String × ViewPort) → List (String × ViewPort)
put name v [] = (name, v) ∷ []
put name v ((n, w) ∷ rest) = if same n name then (n, v) ∷ rest else (n, w) ∷ put name v rest

abbrev sizes : ViewportRequest → ViewSize
sizes r = elim r.iviewsize [
  | some i ↦ ivs i
  | none ↦ elim r.viewsize [ some e ↦ evs e | none ↦ unset ]
]

update_client : ClientPtr → Client → ClientPtr → ClientPtr
update_client p c q = if q.address == p.address then record q { client = c } else q

-- `RegisterViewport`
pub register_viewport : ViewportRequest → Game → Outcome (ViewportResponse × Game)
unfolding get set_x set_y put update_client
register_viewport request game = elim (get request.client_id game.clients) [
  | none ↦ value (record { code = 1; viewport_id = none }, game)
  | some p ↦ chain (set_x coordinate request.x) (λ pos1. chain (set_y pos1 request.y) (λ pos2.
      let viewport = record new_viewport {
        name = request.name;
        pos = pos2;
        viewsize = sizes request;
      } in
      let client = p.client in
      let viewports = put request.name viewport client.viewports in
      let client' = record client { viewports = viewports } in
      value (
        record { code = 0; viewport_id = some (length viewports) },
        record game { clients = map (update_client p client') game.clients },
      )))
]
