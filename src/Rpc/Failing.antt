-- ===== src/Rpc/Failing.antt =====
-- ProtobufConnection.cpp: `CallMethod` without a connection.
use tt3d.Base.{
  ℕ, ◌+◌, ◌-◌, ◌≡◌, refl, arith, Bool, true, false, [], ◌∷◌, ◌++◌, Option, some, ◌⊎◌, if◌then◌else◌,
  append-nil, Option-cases, inl, inr,
}
use tt3d.Wire.{Bytes, Codec}
use tt3d.Rpc.{
  abort, release_response_table, abort_all, call_method_callback, Call, World, Client, Reason,
  disconnected, call_method, finish, on_controller, run_done,
}

-- The call has failed for this reason, nothing was filled in, and its closure was run.
pub record Failed (r : Reason) (call : Call) (w w' : World) : Type 0 where
  pub filled : w'.filled ≡ w.filled
  pub ran : w'.ran ≡ w.ran ++ (if call.done then call.number ∷ [] else [])
  pub controllers : (n : ℕ) → call.controller ≡ some n → (w'.controllers n).failed ≡ some r

finish-Failed : (r : Reason) (call : Call) (w : World) → Failed r call w (finish r call w)
unfolding finish on_controller run_done
finish-Failed r call w = record {
  filled = elim (Option-cases call.controller) [
    | inl e ↦ ground (arith, e)
    | inr (n, e) ↦ ground (arith, e)
  ];
  ran = elim (Option-cases call.controller) [
    | inl e ↦ ground (arith, e, append-nil w.ran)
    | inr (n, e) ↦ ground (arith, e, append-nil w.ran)
  ];
  controllers = λ n e. ground (arith, e);
}

-- The call ends at once, and leaves no handler behind.
pub call_method-Failed :
    (k : Codec) (identify hash : ℕ) (content : Option Bytes) (call : Call) (s : Client)
    → s.connection.exclusive ≡ false
    → (s.connection.status.closing ≡ true) ⊎ (s.connection.impl ≡ false)
    → (s' : Client) × (call_method k identify hash content call s ≡ some s')
      × (s'.table ≡ s.table)
      × Failed disconnected call s.world s'.world
unfolding call_method
call_method-Failed k identify hash content call s x h =
    let c = s.connection in
    (
      record s {
        connection = record c { shared = c.shared + 1 - 1 };
        world = finish disconnected call s.world;
      },
      ground (arith, x, h),
      refl,
      finish-Failed disconnected call s.world,
    )

-- The destructor fails the one call that waits.
pub release-Failed :
    (parses : ℕ → Bytes → Bool) (id : ℕ) (call : Call) (s : Client)
    → s.table ≡ (id, call) ∷ []
    → Failed abort call s.world (release_response_table parses s).world
unfolding release_response_table abort_all call_method_callback
release-Failed parses id call s e = rw e (finish-Failed abort call s.world)
