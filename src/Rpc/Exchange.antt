-- ===== src/Rpc/Exchange.antt =====
-- RawProtobufConnection.cpp: several calls one after the other, and what the table of handlers then is.
use tt3d.Base.{
  ℕ, zero, suc, ◌+◌, ◌<◌, ◌≡◌, ◌∙◌, refl, ap, sym, subst, arith, false, List, [], ◌∷◌, ◌++◌, Option,
  some, length, ◌>>=◌, append-nil, map, All,
}
use tt3d.Base.Members.{find}
use tt3d.Wire.{Bytes, Codec, MetaData, encode_message}
use tt3d.Raw.{Connection}
use tt3d.Raw.Stream.{stream, item_bytes}
use tt3d.Raw.Open.{IsOpen, Took, Took-trans}
use tt3d.Methods.{response_meta}
use tt3d.Rpc.{Call, Client, Table, keys, call_method, request_meta}
use tt3d.Rpc.Sending.{search, call_method-Sent}

-- A call, and what the server has for it: the method's number and the bytes of its answer.
pub record Exchange : Type 0 where
  pub identify : ℕ
  pub hash : ℕ
  pub content : Bytes
  pub call : Call
  pub method : ℕ
  pub answer : Bytes

-- An exchange with the identify that its response is to bring.
abbrev pub request_of : ℕ × Exchange → MetaData
request_of (id, x) = request_meta x.identify id x.content

abbrev pub response_of : ℕ × Exchange → MetaData
response_of (id, x) = response_meta (request_meta x.identify id x.content) x.answer

abbrev pub bytes_of : Codec → List MetaData → Bytes
bytes_of k [] = []
bytes_of k (m ∷ ms) = item_bytes (encode_message k m) ++ bytes_of k ms

-- The table after the calls, the latest first.
abbrev pub entries : List (ℕ × Exchange) → Table → Table
entries [] t = t
entries ((id, x) ∷ sent) t = entries sent ((id, x.call) ∷ t)

-- The identifies differ from each other and from those in the table.
abbrev pub Apart : List (ℕ × Exchange) → Table → Type 0
Apart [] t = Unit
Apart ((id, x) ∷ sent) t = (find id (keys t) ≡ false) × Apart sent ((id, x.call) ∷ t)

-- So many rounds at most do the searches of so many calls take.
abbrev pub room : ℕ → ℕ → ℕ
room zero n = 0
room (suc m) n = (n + 1) + room m (n + 1)

-- The calls, one after the other.
unfoldable pub call_all : Codec → List Exchange → Client → Option Client
call_all k [] s = some s
call_all k (x ∷ xs) s = call_method k x.identify x.hash (some x.content) x.call s >>= call_all k xs

-- What the calls leave with the client, and on its connection.
pub record SentAll (k : Codec) (sent : List (ℕ × Exchange)) (s s' : Client) : Type 0 where
  pub table : s'.table ≡ entries sent s.table
  pub world : s'.world ≡ s.world
  pub took : Took (bytes_of k (map request_of sent)) s.connection s'.connection
  pub apart : Apart sent s.table
  pub small : All (λ p. p.0 < 18446744073709551616) sent

later_room :
    (m n n1 seq seq1 : ℕ)
    → n1 ≡ n + 1
    → seq1 < seq + (n + 1)
    → seq + room (suc m) n < 2147483648
    → seq1 + room m n1 < 2147483648
later_room m n n1 seq seq1 e l b = omega (arith, ap (room m) e)

pub nothing_sent : (c : Connection) → IsOpen c → Took [] c c
nothing_sent c o = record { kept = o; flow = sym (append-nil (stream c)) }

module _ (k : Codec) where
  pub call_all-SentAll :
      (xs : List Exchange) (s : Client)
      → IsOpen s.connection
      → All (λ x. x.hash < 18446744073709551616) xs
      → s.seq + room (length xs) (length (keys s.table)) < 2147483648
      → (sent : List (ℕ × Exchange)) × (s' : Client) × (map (λ p. p.1) sent ≡ xs)
        × (call_all k xs s ≡ some s')
        × SentAll k sent s s'
  unfolding call_all
  call_all-SentAll [] s o h b = (
    [],
    s,
    refl,
    refl,
    record {
      table = refl;
      world = refl;
      took = nothing_sent s.connection o;
      apart = tt;
      small = tt;
    },
  )
  call_all-SentAll (x ∷ xs) s o (h, hs) b =
      let f = search s x.hash h (omega arith) in
      let (s1, e, one) = call_method-Sent k x.identify x.hash x.content x.call s o f in
      let (sent, s', m, es, rest) = call_all-SentAll xs s1 one.took.kept hs (
        later_room (length xs) (length (keys s.table)) (length (keys s1.table)) s.seq s1.seq
          (ap (λ t. length (keys t)) one.table ∙ omega arith) one.seq b) in
      (
        (f.id, x) ∷ sent,
        s',
        ap (λ ys. x ∷ ys) m,
        ground (arith, e, es),
        record {
          table = rest.table ∙ ap (entries sent) one.table;
          world = rest.world ∙ one.world;
          took = Took-trans one.took rest.took;
          apart = (f.free, subst (Apart sent) one.table rest.apart);
          small = (f.small, rest.small);
        },
      )
