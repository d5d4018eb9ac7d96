-- ===== src/Mex/Memory/Laws.antt =====
-- The rules of the memory manager and of the calls of libzmq, for proofs about whole MEX functions.
use matlab_zmq.Mex.Host.{Allocates, Host}
use matlab_zmq.Mex.Memory.{
  cast, release, is_live, Block, State, Call, calloc, malloc, placed, free, read, read_string,
  perform, argument,
}
use matlab_zmq.Prelude.{
  ap, ◌∙◌, ℕ, ◌*◌, ◌≡◌, refl, Bool, true, false, Option, none, some, List, ◌∷◌, Bytes, length, take,
  replicate, ◌≤◌, get_elem?, leb_of_le, ==_refl, c_str, if◌then◌else◌,
}
use matlab_zmq.Mex.Exec.Ends.{Ends, returns}
use matlab_zmq.Mex.Exec.{MexError}

module _ {H : Host} where
  -- No call of libzmq and no warning between the two states.
  pub record Quiet (s t : State H) : Type 0 where
    pub calls : t.calls ≡ s.calls
    pub warnings : t.warnings ≡ s.warnings

  -- Nor any block more or less.
  pub record Same (s t : State H) : Type 0 where
    pub live : t.live ≡ s.live
    pub calls : t.calls ≡ s.calls
    pub warnings : t.warnings ≡ s.warnings

  -- One more block, the newest.
  pub record Holds (b : Block) (s t : State H) : Type 0 where
    pub live : t.live ≡ b.serial ∷ s.live
    pub calls : t.calls ≡ s.calls
    pub warnings : t.warnings ≡ s.warnings

  -- These blocks are left, and nothing else has happened.
  pub record Freed (l : List ℕ) (s t : State H) : Type 0 where
    pub live : t.live ≡ l
    pub calls : t.calls ≡ s.calls
    pub warnings : t.warnings ≡ s.warnings

  -- What an allocation gives: nothing, or a block with these bytes.
  abbrev pub Got : (Bytes → Type 0) → State H → Option Block → State H → Type 0
  Got P s none t = Same s t
  Got P s (some b) t = Holds b s t × P b.bytes

  -- One more call of libzmq.
  pub record Called (c : Call) (s t : State H) : Type 0 where
    pub live : t.live ≡ s.live
    pub calls : t.calls ≡ c ∷ s.calls
    pub warnings : t.warnings ≡ s.warnings

module _ {H : Host} where
  pub Quiet-trans : {s t u : State H} → Quiet s t → Quiet t u → Quiet s u
  Quiet-trans p q = record { calls = q.calls ∙ p.calls; warnings = q.warnings ∙ p.warnings }

  pub Quiet-refl : (s : State H) → Quiet s s
  Quiet-refl s = record { calls = refl; warnings = refl }

  pub Holds-Quiet : {b : Block} {s t : State H} → Holds b s t → Quiet s t
  Holds-Quiet p = record { calls = p.calls; warnings = p.warnings }

  pub Same-Quiet : {s t : State H} → Same s t → Quiet s t
  Same-Quiet p = record { calls = p.calls; warnings = p.warnings }

  pub Same-trans : {s t u : State H} → Same s t → Same t u → Same s u
  Same-trans p q = record {
    live = q.live ∙ p.live;
    calls = q.calls ∙ p.calls;
    warnings = q.warnings ∙ p.warnings;
  }

  pub Same-refl : (s : State H) → Same s s
  Same-refl s = record { live = refl; calls = refl; warnings = refl }

  pub Called-after : {c : Call} {s t u : State H} → Same s t → Called c t u → Called c s u
  Called-after {c} p q = record {
    live = q.live ∙ p.live;
    calls = q.calls ∙ ap (λ l. c ∷ l) p.calls;
    warnings = q.warnings ∙ p.warnings;
  }

module _ (H : Host) where
  placed-Ends :
      {E : MexError → State H → Type 0} (o : Option Bytes) (w : H.World) (s : State H)
      → Ends (Got (λ bytes. o ≡ some bytes) s) E (placed H o w s)
  placed-Ends none w s = returns (record { live = refl; calls = refl; warnings = refl })
  placed-Ends (some bytes) w s =
      returns (record { live = refl; calls = refl; warnings = refl }, refl)

  pub calloc-Ends :
      {E : MexError → State H → Type 0} (count size : ℕ) (s : State H)
      → Ends (Got (λ bytes. bytes ≡ replicate (count * size) 0) s) E (calloc H count size s)
  unfolding calloc
  calloc-Ends {E} count size s =
      from_flag (H.calloc count size s.world).0 (H.calloc count size s.world).1
    where
      from_flag :
          (done : Bool) (w : H.World)
          → Ends
              (Got (λ bytes. bytes ≡ replicate (count * size) 0) s)
              E
              (placed H (if done then some (replicate (count * size) 0) else none) w s)
      from_flag true w = returns (record { live = refl; calls = refl; warnings = refl }, refl)
      from_flag false w = returns (record { live = refl; calls = refl; warnings = refl })

  -- A cleared block was allocated.
  pub record Cleared (n : ℕ) (s : State H) (o : Option Block) (t : State H) : Type 0 where
    pub block : Block
    pub is : o ≡ some block
    pub held : Holds block s t
    pub zeros : block.bytes ≡ replicate n 0

  pub calloc-Cleared :
      {E : MexError → State H → Type 0} (allocates : Allocates H) (count size : ℕ) (s : State H)
      → Ends (Cleared (count * size) s) E (calloc H count size s)
  unfolding calloc
  calloc-Cleared {E} allocates count size s =
      from_flag (H.calloc count size s.world).0 (H.calloc count size s.world).1
        (allocates count size s.world)
    where
      from_flag :
          (done : Bool) (w : H.World)
          → done ≡ true
          → Ends
              (Cleared (count * size) s)
              E
              (placed H (if done then some (replicate (count * size) 0) else none) w s)
      from_flag true w e = returns (record {
        block = _;
        is = refl;
        held = record { live = refl; calls = refl; warnings = refl };
        zeros = refl;
      })
      from_flag false w e = cc

  pub malloc-Ends :
      {E : MexError → State H → Type 0} (size : ℕ) (s : State H)
      → Ends (Got (λ bytes. (H.malloc size s.world).0 ≡ some bytes) s) E (malloc H size s)
  unfolding malloc
  malloc-Ends size s = placed-Ends (H.malloc size s.world).0 (H.malloc size s.world).1 s

  -- The newest block can be freed.
  pub free-Ends :
      {E : MexError → State H → Type 0} (b : Block) (l : List ℕ) (s : State H)
      → s.live ≡ b.serial ∷ l
      → Ends (λ _ t. Freed l s t) E (free H b s)
  unfolding free
  free-Ends b l s e =
      let on : is_live s.live b.serial ≡ true = rw (e, ==_refl b.serial) in
      let off : release s.live b.serial ≡ l = rw (e, ==_refl b.serial) in
      rw (on, free) (returns (record { live = off; calls = refl; warnings = refl }))

  pub read-Ends :
      {E : MexError → State H → Type 0} (n : ℕ) (bytes : Bytes) (s : State H)
      → n ≤ length bytes
      → Ends (λ out t. (out ≡ take n bytes) × (t ≡ s)) E (read H n bytes s)
  unfolding read
  read-Ends n bytes s h = rw (leb_of_le n (length bytes) h) (returns (refl, refl))

  pub read_string-Ends :
      {E : MexError → State H → Type 0} (bytes : Bytes) (s : State H) {u : Bytes}
      → c_str bytes ≡ some u
      → Ends (λ out t. (out ≡ u) × (t ≡ s)) E (read_string H bytes s)
  unfolding read_string
  read_string-Ends bytes s e = rw (e, read_string) (returns (refl, refl))

  pub cast-Ends :
      {A : Type 0} {E : MexError → State H → Type 0} (is_defined : Bool) (value : A) (s : State H)
      → is_defined ≡ true
      → Ends (λ x t. (x ≡ value) × (t ≡ s)) E (cast H is_defined value s)
  cast-Ends is_defined value s e = rw e (returns (refl, refl))

  pub argument-Ends :
      {E : MexError → State H → Type 0} (xs : List H.Array) (i : ℕ) (s : State H) {a : H.Array}
      → get_elem? xs i ≡ some a
      → Ends (λ out t. (out ≡ a) × (t ≡ s)) E (argument H xs i s)
  unfolding argument
  argument-Ends xs i s e = rw (e, argument) (returns (refl, refl))

  pub perform-Ends :
      {A : Type 0} {E : MexError → State H → Type 0} (c : Call) (f : H.World → A × H.World)
      (s : State H)
      → Ends
          (λ a t. Called c s t × (a ≡ (f s.world).0) × (t.world ≡ (f s.world).1))
          E
          (perform H c f s)
  unfolding perform
  perform-Ends c f s = returns (record { live = refl; calls = refl; warnings = refl }, refl, refl)
