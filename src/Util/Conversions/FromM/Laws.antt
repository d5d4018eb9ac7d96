-- ===== src/Util/Conversions/FromM/Laws.antt =====
-- What the `*_from_m` functions leave in memory, on every path.
use matlab_zmq.Prelude.{
  Bool, true, false, leb_of_le, length-zeros, ℕ, ◌*◌, ◌≤◌, ◌≡◌, refl, ◌≢◌, ◌∙◌, ◌⊎◌, inl, inr,
  String, Option, none, some, [], ◌∷◌, ◌++◌, Bytes, arith, length, take, replicate, ◌==◌, ==_iff,
  overwrite_all, length-overwrite, length-replicate, length-take_of_le, c_str, c_str-overwrite,
  up_to_zero,
}
use matlab_zmq.Mex.Memory.Laws.{cast-Ends, Quiet-trans, Quiet, Holds, Got, calloc-Ends, read-Ends}
use matlab_zmq.Prelude.Words.{of_bytes, to_bytes, wrap, int_values, size_values, length-to_bytes}
use matlab_zmq.Mex.Exec.{MexError, returned}
use matlab_zmq.Mex.Exec.Ends.{Ends, returns, throws}
use matlab_zmq.Mex.Host.{Host, IsLawful}
use matlab_zmq.Mex.Memory.{Block, State}
use matlab_zmq.Util.Conversions.FromM.{
  int_from_m, int64_from_m, uint64_from_m, size_t_from_m, uint32_from_m, allocated_or, string_size,
  written_or, uint8_array_from_m, scalar_from_m, str_from_m, pointer_from_m,
}
use matlab_zmq.Mex.Exec.Ends

-- A failure before any call of libzmq, with one of the identifiers.
pub record Fails {H : Host} (P : String → Type 0) (s : State H) (e : MexError) (t : State H)
    : Type 0 where
  pub id_known : P e.id
  pub quiet : Quiet s t

-- A failure after quiet steps, among more identifiers.
pub Fails-after :
    {H : Host} {P Q : String → Type 0} {s t u : State H} {e : MexError}
    → ((i : String) → P i → Q i)
    → Quiet s t
    → Fails P t e u
    → Fails Q s e u
Fails-after weaken p f = record { id_known = weaken _ f.id_known; quiet = Quiet-trans p f.quiet }

module _ (H : Host) where
  pub allocated_or-Ends :
      (P : Bytes → Type 0) (i : String) (o : Option Block) (s t : State H)
      → Got P s o t
      → Ends (λ b u. Holds b s u × P b.bytes) (Fails (λ j. j ≡ i) s) (allocated_or H i o t)
  allocated_or-Ends P i none s t same =
      throws (record {
        id_known = refl;
        quiet = record { calls = same.calls; warnings = same.warnings };
      })
  allocated_or-Ends P i (some b) s t got = returns got

  scalar_from_m-Ends :
      (size : ℕ) (is_defined : Bool) (value : ℕ) (s : State H)
      → is_defined ≡ true
      → Ends
          (λ b t. Holds b s t × (b.bytes ≡ to_bytes size value))
          (Fails (λ i. i ≡ "util:calloc") s)
          (scalar_from_m H size is_defined value s)
  unfolding scalar_from_m
  scalar_from_m-Ends size is_defined value s e = Ends.bind (calloc-Ends H 1 size s) λ o t got.
      Ends.bind (allocated_or-Ends _ "util:calloc" o s t got) λ b u (held, cleared).
        Ends.bind_value _ value u (cast-Ends H is_defined value u e) (
          returns (
            record { live = held.live; calls = held.calls; warnings = held.warnings },
            overwrite_all b.bytes (to_bytes size value)
                (rw cleared (omega (arith, length-to_bytes size value, length-zeros (1 * size)))),
          ))

  -- The block holds the array's text, terminated.
  pub record IsText (a : H.Array) (b : Block) : Type 0 where
    pub chars : Bytes
    pub given : H.get_string a (string_size H a) ≡ some chars
    pub string : c_str b.bytes ≡ some (up_to_zero chars)
    pub size : length b.bytes ≡ string_size H a

  written_or-Ends :
      (lawful : IsLawful H) (a : H.Array) (b : Block) (s t : State H) (o : Option Bytes)
      → Holds b s t
      → b.bytes ≡ replicate (string_size H a * 1) 0
      → H.get_string a (string_size H a) ≡ o
      → Ends
          (λ c u. Holds c s u × IsText a c)
          (Fails (λ i. i ≡ "util:str_from_m") s)
          (written_or H "util:str_from_m" "Error: Couldn't get parameter as string." b o t)
  written_or-Ends lawful a b s t none held cleared e =
      throws (record {
        id_known = refl;
        quiet = record { calls = held.calls; warnings = held.warnings };
      })
  written_or-Ends lawful a b s t (some chars) held cleared e =
      let n = string_size H a in
      let once : n * 1 ≡ n = omega arith in
      let zeros : b.bytes ≡ replicate n 0 = rw once at cleared in
      returns (
        record { live = held.live; calls = held.calls; warnings = held.warnings },
        record {
          chars = chars;
          given = e;
          string = rw zeros (c_str-overwrite n chars (lawful.string_fits a n e));
          size =
              rw zeros (length-overwrite (replicate n 0) (chars ++ 0 ∷ []) ∙ length-replicate n 0);
        },
      )

  abbrev pub TextErrors : String → Type 0
  TextErrors i = (i ≡ "mex:calloc") ⊎ (i ≡ "util:str_from_m")

  -- `str_from_m` gives a new block with the array's text, terminated inside the block, or throws one
  -- of its two errors. It makes no call of libzmq and frees nothing.
  pub str_from_m-Ends :
      (lawful : IsLawful H) (a : H.Array) (s : State H)
      → Ends (λ b t. Holds b s t × IsText a b) (Fails TextErrors s) (str_from_m H a s)
  unfolding str_from_m
  str_from_m-Ends lawful a s = Ends.bind (calloc-Ends H (string_size H a) 1 s) λ o t got.
      Ends.bind
        (Ends.mono (allocated_or-Ends _ "mex:calloc" o s t got) (λ b u p. p)
          (λ e u f. record { id_known = inl f.id_known; quiet = f.quiet }))
        λ b u (held, cleared).
          Ends.mono (written_or-Ends lawful a b s u _ held cleared refl) (λ c v p. p)
            (λ e v f. record { id_known = inr f.id_known; quiet = f.quiet })

  pub uint8_array_from_m-Ends :
      (a : H.Array) (n : ℕ) (s : State H)
      → n ≤ length (H.get_data a)
      → Ends
          (λ b t. Holds b s t × (b.bytes ≡ take n (H.get_data a)))
          (Fails (λ i. i ≡ "util:calloc") s)
          (uint8_array_from_m H a n s)
  unfolding uint8_array_from_m
  uint8_array_from_m-Ends a n s h = Ends.bind (calloc-Ends H n 1 s) λ o t got.
      Ends.bind (allocated_or-Ends _ "util:calloc" o s t got) λ b u (held, cleared).
        Ends.bind (read-Ends H n (H.get_data a) u h) λ input v (taken, same).
          rw (same, taken)
            (returns (
              record { live = held.live; calls = held.calls; warnings = held.warnings },
              overwrite_all b.bytes (take n (H.get_data a)) (
                  rw cleared (
                    omega (arith, length-take_of_le {0} n (H.get_data a) h, length-zeros (n * 1)))),
            ))

  -- The array has the bytes of a pointer.
  abbrev pub HoldsPointer : H.Array → Type 0
  HoldsPointer a = H.pointer_size ≤ length (H.get_data a)

  abbrev pub pointer_in : H.Array → ℕ
  pointer_in a = of_bytes (take H.pointer_size (H.get_data a))

  abbrev pub IsPointer : H.Array → ℕ → Type 0
  IsPointer a p = (p ≡ pointer_in a) × (p ≢ 0)

  -- An array that is large enough for a pointer gives the pointer that its first bytes spell; the
  -- function throws exactly where that pointer is NULL, and changes no state.
  pub pointer_from_m-Ends :
      (a : H.Array) (s : State H)
      → HoldsPointer a
      → Ends
          (λ p t. (t ≡ s) × IsPointer a p)
          (λ e t. (t ≡ s) × (e.id ≡ "util:pointer_from_m") × (pointer_in a ≡ 0))
          (pointer_from_m H a s)
  unfolding pointer_from_m
  pointer_from_m-Ends a s h =
      Ends.bind (read-Ends H H.pointer_size (H.get_data a) s h) λ input t (taken, same).
        rw (same, taken)
          (Ends.either (pointer_in a == 0) _ _ s (λ e. throws (refl, refl, (==_iff _ _).0 e))
            (λ e. returns (refl, (refl, λ z. ground arith))))

  pub pointer_from_m_lem :
      (a : H.Array) (s : State H)
      → HoldsPointer a
      → pointer_in a ≢ 0
      → pointer_from_m H a s ≡ (returned (pointer_in a), s)
  unfolding pointer_from_m
  pointer_from_m_lem a s h valid =
      let nonzero : (pointer_in a == 0) ≡ false = ground arith in
      rw (leb_of_le H.pointer_size (length (H.get_data a)) h, nonzero)

  pub int_from_m-Ends :
      (a : H.Array) (s : State H)
      → H.casts_to_int a ≡ true
      → Ends
          (λ b t.
            Holds b s t
            × (b.bytes ≡ to_bytes 4 (wrap int_values (H.double_to_int (H.get_scalar a)))))
          (Fails (λ i. i ≡ "util:calloc") s)
          (int_from_m H a s)
  unfolding int_from_m
  int_from_m-Ends a s e = scalar_from_m-Ends 4 _ _ s e

  pub int64_from_m-Ends :
      (a : H.Array) (s : State H)
      → H.casts_to_int64 a ≡ true
      → Ends
          (λ b t.
            Holds b s t
            × (b.bytes ≡ to_bytes 8 (wrap size_values (H.double_to_int64 (H.get_scalar a)))))
          (Fails (λ i. i ≡ "util:calloc") s)
          (int64_from_m H a s)
  unfolding int64_from_m
  int64_from_m-Ends a s e = scalar_from_m-Ends 8 _ _ s e

  pub uint64_from_m-Ends :
      (a : H.Array) (s : State H)
      → H.casts_to_uint64 a ≡ true
      → Ends
          (λ b t. Holds b s t × (b.bytes ≡ to_bytes 8 (H.double_to_uint64 (H.get_scalar a))))
          (Fails (λ i. i ≡ "util:calloc") s)
          (uint64_from_m H a s)
  unfolding uint64_from_m
  uint64_from_m-Ends a s e = scalar_from_m-Ends 8 _ _ s e

  pub size_t_from_m-Ends :
      (a : H.Array) (s : State H)
      → H.casts_to_uint64 a ≡ true
      → Ends
          (λ b t. Holds b s t × (b.bytes ≡ to_bytes 8 (H.double_to_uint64 (H.get_scalar a))))
          (Fails (λ i. i ≡ "util:calloc") s)
          (size_t_from_m H a s)
  unfolding size_t_from_m
  size_t_from_m-Ends a s e = scalar_from_m-Ends 8 _ _ s e

  pub uint32_from_m-Ends :
      (a : H.Array) (s : State H)
      → H.casts_to_uint32 a ≡ true
      → Ends
          (λ b t. Holds b s t × (b.bytes ≡ to_bytes 4 (H.double_to_uint32 (H.get_scalar a))))
          (Fails (λ i. i ≡ "util:calloc") s)
          (uint32_from_m H a s)
  unfolding uint32_from_m
  uint32_from_m-Ends a s e = scalar_from_m-Ends 4 _ _ s e
