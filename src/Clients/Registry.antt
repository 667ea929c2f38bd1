-- ===== src/Clients/Registry.antt =====
-- RpcServiceClients.hpp and ConcurrentContainer.cpp: what a login gets, and what its id then means.
use tt3d.Base.{
  get_elem?-cases, ℕ, ◌+◌, ◌-◌, ◌%◌, ◌<◌, ◌≤◌, ◌≡◌, ◌⊎◌, inl, inr, refl, arith, Bool, true, false,
  ◌||◌, List, [], ◌∷◌, ◌++◌, none, some, length, ltb, ◌==◌, if◌then◌else◌, All, All-append,
  length-append, get_elem?-append_left, get_elem?-append_last, Bool-cases,
}
use tt3d.Coordinate.{chain, found, at_unchecked, value, undefined, coordinate}
use tt3d.Clients.{
  String, same, exists, add, get, unique_login, Game, ClientPtr, ClientRequest, new_client,
  ClientResponse, int_bits, register, ViewportRequest, register_viewport, set_x,
}

abbrev pub Distinct : List ClientPtr → Type 0
Distinct [] = Unit
Distinct (p ∷ ps) = All (λ q. same p.client.login q.client.login ≡ false) ps × Distinct ps

-- Each client has a greater address than those before it, so no two have the same.
abbrev pub Apart : List ClientPtr → Type 0
Apart [] = Unit
Apart (p ∷ ps) = All (λ q. p.address < q.address) ps × Apart ps

pub record IsGame (g : Game) : Type 0 where
  pub addresses : All (λ p. p.address < g.allocated) g.clients
  pub apart : Apart g.clients
  pub logins : Distinct g.clients

-- Whether a client has this login.
abbrev pub taken : String → Game → Bool
taken login g = exists (λ p. same p.client.login login) g.clients

All-raise :
    (n m : ℕ) (ps : List ClientPtr)
    → n ≤ m
    → All (λ p. p.address < n) ps
    → All (λ p. p.address < m) ps
All-raise n m [] h a = tt
All-raise n m (p ∷ ps) h a = (omega (arith, a.0), All-raise n m ps h a.1)

Apart-append :
    (ps : List ClientPtr) (q : ClientPtr)
    → Apart ps
    → All (λ p. p.address < q.address) ps
    → Apart (ps ++ q ∷ [])
Apart-append [] q d a = (tt, tt)
Apart-append (p ∷ ps) q d a = (All-append _ ps (q ∷ []) d.0 (a.0, tt), Apart-append ps q d.1 a.1)

exists-address :
    (n : ℕ) (ps : List ClientPtr)
    → All (λ p. p.address < n) ps
    → exists (λ q. n == q.address) ps ≡ false
unfolding exists
exists-address n [] a = refl
exists-address n (p ∷ ps) a = ground (arith, a.0, exists-address n ps a.1)

All-clashes :
    (login : String) (ps : List ClientPtr)
    → exists (λ p. same p.client.login login) ps ≡ false
    → All (λ p. same p.client.login login ≡ false) ps
unfolding exists
All-clashes login [] h = tt
All-clashes login (p ∷ ps) h = (ground arith, All-clashes login ps (ground arith))

Distinct-append :
    (ps : List ClientPtr) (q : ClientPtr)
    → Distinct ps
    → All (λ p. same p.client.login q.client.login ≡ false) ps
    → Distinct (ps ++ q ∷ [])
Distinct-append [] q d a = (tt, tt)
Distinct-append (p ∷ ps) q d a =
    (All-append _ ps (q ∷ []) d.0 (a.0, tt), Distinct-append ps q d.1 a.1)

small : (n : ℕ) → n < int_bits → n % int_bits ≡ n
small n h = omega arith

abbrev pub new_ptr : ClientRequest → Game → ClientPtr
new_ptr r g = record { address = g.allocated; client = new_client r }

-- A login that no client has is accepted: the answer has no error, and its id, which is one more than the number of
-- clients so far, gives the new client.
pub register-new :
    (r : ClientRequest) (g : Game)
    → IsGame g
    → taken r.login g ≡ false
    → length g.clients + 1 < int_bits
    → ((register r g).0.code ≡ 0)
      × ((register r g).0.client_id ≡ some (length g.clients + 1))
      × (get (length g.clients + 1) (register r g).1.clients ≡ some (new_ptr r g))
unfolding register add get unique_login
register-new r g v h l = ground (
  arith,
  exists-address g.allocated g.clients v.addresses,
  length-append g.clients (new_ptr r g ∷ []),
  get_elem?-append_last g.clients (new_ptr r g),
  small (length g.clients + 1) l,
)

-- A login that a client has is refused: the answer has the error, closes, and names no client, and the clients stay as
-- they are.
pub register-taken :
    (r : ClientRequest) (g : Game)
    → taken r.login g ≡ true
    → ((register r g).0.code ≡ 1)
      × ((register r g).0.close ≡ true)
      × ((register r g).0.client_id ≡ none)
      × ((register r g).1.clients ≡ g.clients)
unfolding register add unique_login
register-taken r g h = ground arith

-- What is left of the game by a registration.
register-state :
    (r : ClientRequest) (g : Game)
    → IsGame g
    → ((taken r.login g ≡ true)
        × ((register r g).1 ≡ record { clients = g.clients; allocated = g.allocated + 1 }))
      ⊎ ((taken r.login g ≡ false)
          × ((register r g).1
              ≡ record { clients = g.clients ++ new_ptr r g ∷ []; allocated = g.allocated + 1 }))
unfolding register add unique_login
register-state r g v = elim (Bool-cases (taken r.login g)) [
  | inl e ↦ inl (e, ground arith)
  | inr e ↦ inr (e, ground (arith, exists-address g.allocated g.clients v.addresses))
]

-- A registration keeps the game in order: no two clients have the same login, and none has the address of another, as
-- the addresses ascend in the order of the logins. An id given out before still gives the same client.
pub register-IsGame :
    (r : ClientRequest) (g : Game) (index : ℕ)
    → IsGame g
    → index ≤ length g.clients
    → IsGame (register r g).1 × (get index (register r g).1.clients ≡ get index g.clients)
unfolding get
register-IsGame r g index v h = elim (register-state r g v) [
  | inl (t, e) ↦ rw e (
    record {
      addresses = All-raise g.allocated (g.allocated + 1) g.clients (omega arith) v.addresses;
      apart = v.apart;
      logins = v.logins;
    },
    refl,
  )
  | inr (t, e) ↦ rw e (
    record {
      addresses =
          All-append _ g.clients (new_ptr r g ∷ [])
            (All-raise g.allocated (g.allocated + 1) g.clients (omega arith) v.addresses)
            (omega arith, tt);
      apart = Apart-append g.clients (new_ptr r g) v.apart v.addresses;
      logins = Distinct-append g.clients (new_ptr r g) v.logins (All-clashes r.login g.clients t);
    },
    ground (
      arith,
      get_elem?-append_left g.clients (new_ptr r g ∷ []) (index - 1),
      length-append g.clients (new_ptr r g ∷ []),
    ),
  )
]

-- The numbers in a response fit into the `uint32` fields of the message.
abbrev pub IsUint32 : ClientResponse → Type 0
IsUint32 r = (r.code < 4294967296) × ((i : ℕ) → r.client_id ≡ some i → i < 4294967296)

pub register-IsUint32 : (r : ClientRequest) (game : Game) → IsUint32 (register r game).0
unfolding register
register-IsUint32 r game = (ground arith, λ i e. ground arith)

no_position : (v : ℕ) → set_x coordinate v ≡ undefined
unfolding set_x at_unchecked chain found
no_position v = refl

-- A viewport is refused for an id that was never given out; for any other, the call runs into undefined behaviour, since
-- the new viewport's position has no components.
pub register_viewport_ends :
    (r : ViewportRequest) (g : Game)
    → register_viewport r g ≡ (
        if r.client_id == 0 || ltb (length g.clients) r.client_id
        then value (record { code = 1; viewport_id = none }, g)
        else undefined)
unfolding register_viewport get chain
register_viewport_ends r g = elim (get_elem?-cases g.clients (r.client_id - 1)) [
  | inl (h, a, e) ↦ ground (arith, no_position r.x)
  | inr (h, e) ↦ ground arith
]
