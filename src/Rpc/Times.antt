-- ===== src/Rpc/Times.antt =====
-- RawProtobufConnection.cpp: how often the closure of a call was run, and how often it is still to be.
use tt3d.Base.{
  ℕ, ◌+◌, ◌≡◌, ◌∙◌, refl, ap, arith, Bool, ◌&&◌, List, [], ◌∷◌, ◌++◌, Option, none, some, ◌==◌,
  if◌then◌else◌, Bool-cases, inl, inr,
}
use tt3d.Wire.{Bytes, MetaData}
use tt3d.Rpc.{
  notify, Call, World, Reason, Table, lookup, remove, run_done, on_controller, finish,
  call_method_callback, abort_all,
}

-- How often the closure of a call was run.
abbrev pub times : ℕ → List ℕ → ℕ
times m [] = 0
times m (n ∷ ns) = (if n == m then 1 else 0) + times m ns

-- Whether the call has this number and a closure.
abbrev pub weight : ℕ → Call → ℕ
weight m call = if call.done && (call.number == m) then 1 else 0

abbrev pub waiting : ℕ → Table → ℕ
waiting m [] = 0
waiting m ((id, call) ∷ t) = weight m call + waiting m t

times-append :
    (m n : ℕ) (ns : List ℕ) → times m (ns ++ n ∷ []) ≡ times m ns + (if n == m then 1 else 0)
times-append m n [] = omega arith
times-append m n (k ∷ ns) = omega (arith, times-append m n ns)

pub run_done-times :
    (m : ℕ) (call : Call) (w : World)
    → times m (run_done call w).ran ≡ times m w.ran + weight m call
unfolding run_done
run_done-times m call w = ground (arith, times-append m call.number w.ran)

pub on_controller-ran : (c : Option ℕ) (f : _) (w : World) → (on_controller c f w).ran ≡ w.ran
unfolding on_controller
on_controller-ran none f w = refl
on_controller-ran (some n) f w = refl

pub finish-times :
    (m : ℕ) (r : Reason) (call : Call) (w : World)
    → times m (finish r call w).ran ≡ times m w.ran + weight m call
unfolding finish
finish-times m r call w =
    run_done-times m call _
    ∙ ap (λ l. times m l + weight m call) (on_controller-ran call.controller _ w)

pub callback-times :
    (p : ℕ → Bytes → Bool) (o : Option MetaData) (m : ℕ) (call : Call) (w : World)
    → times m (call_method_callback p o call w).ran ≡ times m w.ran + weight m call
unfolding call_method_callback
callback-times p none m call w = finish-times m Reason.abort call w
callback-times p (some meta) m call w = elim (Bool-cases (p call.number meta.content)) [
  | inl e ↦ rw e (
      run_done-times m call _
      ∙ ap (λ l. times m l + weight m call) (on_controller-ran call.controller notify _))
  | inr e ↦ rw e (finish-times m Reason.parse_error call w)
]

pub remove-waiting :
    (m id : ℕ) (call : Call) (t : Table)
    → lookup id t ≡ some call
    → waiting m (remove id t) + weight m call ≡ waiting m t
unfolding lookup remove
remove-waiting m id call [] h = ground arith
remove-waiting m id call ((key, c) ∷ t) h = ground (arith, remove-waiting m id call t)

pub abort_all-times :
    (p : ℕ → Bytes → Bool) (m : ℕ) (t : Table) (w : World)
    → times m (abort_all p t w).ran ≡ times m w.ran + waiting m t
unfolding abort_all
abort_all-times p m [] w = omega arith
abort_all-times p m ((id, call) ∷ t) w = omega (
  arith,
  abort_all-times p m t (call_method_callback p none call w),
  callback-times p none m call w,
)
