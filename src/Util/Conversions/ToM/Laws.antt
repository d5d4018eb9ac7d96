-- ===== src/Util/Conversions/ToM/Laws.antt =====
-- Values that go to MATLAB and back, and the reads that the `*_to_m` functions make.
use matlab_zmq.Prelude.{
  true, ℕ, ◌≡◌, refl, ◌∙◌, ◌≢◌, ◌⊎◌, inl, inr, ℤ, pos, some, [], ◌∷◌, Bytes, arith, length, take,
  ◌≤◌, ◌<◌, ◌^◌, leb_of_le, take_all, ◌==◌, if◌then◌else◌, ap, c_str,
}
use matlab_zmq.Util.Conversions.ToM.{
  uint32_matrix_to_m, uint64_matrix_to_m, uint32_to_m, uint64_to_m, str_to_m, chars, Out, int32s,
  int64s, uint32s, uint64s, uint8s, words, int_to_m, int64_to_m, uint8_array_to_m, pointer_array,
  pointer_to_m, int_matrix_to_m, int64_matrix_to_m,
}
use matlab_zmq.Prelude.Words.{
  InRange, int_values, of_bytes, of_bytes-to_bytes, length-to_bytes, signed, signed-wrap_int,
  signed-wrap_long, size_values, to_bytes, wrap, wrap-lt_int, wrap-lt_long,
}
use matlab_zmq.Mex.Exec.{returned, MexError, ◌>>=◌}
use matlab_zmq.Mex.Exec.Ends.{Ends, returns, throws}
use matlab_zmq.Mex.Host.{Host}
use matlab_zmq.Mex.Memory.{State, read_string}
use matlab_zmq.Util.Conversions.Matrix.{matrix_to_m}
use matlab_zmq.Util.Conversions.FromM.{int_from_m, int64_from_m, pointer_from_m}
use matlab_zmq.Util.Conversions.FromM.Laws.{
  Fails, int_from_m-Ends, int64_from_m-Ends, pointer_from_m_lem, pointer_in, HoldsPointer,
}
use matlab_zmq.Mex.Exec.Ends

words_one : (w : ℕ) (bytes : Bytes) → length bytes ≡ w → words 1 w bytes ≡ of_bytes bytes ∷ []
unfolding words
words_one w bytes h = rw (leb_of_le w (length bytes) (omega arith), take_all w bytes (omega arith))

matrix_to_m_one : {A : Type 0} (blank a : A) → matrix_to_m blank (a ∷ []) 1 1 ≡ some (a ∷ [])
unfolding matrix_to_m
matrix_to_m_one blank a = refl

module _ (H : Host) where
  -- Four bytes are one `int32`.
  pub int_to_m_lem :
      (bytes : Bytes) (s : State H)
      → length bytes ≡ 4
      → int_to_m H bytes s ≡ (returned (int32s 1 1 (signed int_values (of_bytes bytes) ∷ [])), s)
  unfolding int_to_m int_matrix_to_m
  int_to_m_lem bytes s h =
      rw (words_one 4 bytes h, matrix_to_m_one (pos 0) (signed int_values (of_bytes bytes)))

  pub int64_to_m_lem :
      (bytes : Bytes) (s : State H)
      → length bytes ≡ 8
      → int64_to_m H bytes s ≡ (returned (int64s 1 1 (signed size_values (of_bytes bytes) ∷ [])), s)
  unfolding int64_to_m int64_matrix_to_m
  int64_to_m_lem bytes s h =
      rw (words_one 8 bytes h, matrix_to_m_one (pos 0) (signed size_values (of_bytes bytes)))

  pub uint64_to_m_lem :
      (bytes : Bytes) (s : State H)
      → length bytes ≡ 8
      → uint64_to_m H bytes s ≡ (returned (uint64s 1 1 (of_bytes bytes ∷ [])), s)
  unfolding uint64_to_m uint64_matrix_to_m
  uint64_to_m_lem bytes s h = rw (words_one 8 bytes h, matrix_to_m_one {A = ℕ} 0 (of_bytes bytes))

  pub uint32_to_m_lem :
      (bytes : Bytes) (s : State H)
      → length bytes ≡ 4
      → uint32_to_m H bytes s ≡ (returned (uint32s 1 1 (of_bytes bytes ∷ [])), s)
  unfolding uint32_to_m uint32_matrix_to_m
  uint32_to_m_lem bytes s h = rw (words_one 4 bytes h, matrix_to_m_one {A = ℕ} 0 (of_bytes bytes))

  -- A return code that is handed to `int_to_m` reaches MATLAB unchanged.
  pub int_to_m-to_bytes :
      (z : ℤ) (s : State H)
      → InRange int_values z
      → int_to_m H (to_bytes 4 (wrap int_values z)) s ≡ (returned (int32s 1 1 (z ∷ [])), s)
  int_to_m-to_bytes z s h =
      int_to_m_lem _ s (length-to_bytes 4 (wrap int_values z))
      ∙ rw (of_bytes-to_bytes 4 (wrap int_values z) (wrap-lt_int z), signed-wrap_int z h)

  -- An `int` that MATLAB passes in is the `int32` that it gets back.
  pub int_to_m-int_from_m :
      (a : H.Array) (s : State H)
      → H.casts_to_int a ≡ true
      → InRange int_values (H.double_to_int (H.get_scalar a))
      → Ends
          (λ out t. out ≡ int32s 1 1 (H.double_to_int (H.get_scalar a) ∷ []))
          (Fails (λ i. i ≡ "util:calloc") s)
          ((int_from_m H a >>= λ b. int_to_m H b.bytes) s)
  int_to_m-int_from_m a s d h = Ends.bind (int_from_m-Ends H a s d) λ b t (held, e).
      rw (e, int_to_m-to_bytes (H.double_to_int (H.get_scalar a)) t h) (returns refl)

  -- An `int64_t` that MATLAB passes in is the `int64` that it gets back.
  pub int64_to_m-int64_from_m :
      (a : H.Array) (s : State H)
      → H.casts_to_int64 a ≡ true
      → InRange size_values (H.double_to_int64 (H.get_scalar a))
      → Ends
          (λ out t. out ≡ int64s 1 1 (H.double_to_int64 (H.get_scalar a) ∷ []))
          (Fails (λ i. i ≡ "util:calloc") s)
          ((int64_from_m H a >>= λ b. int64_to_m H b.bytes) s)
  int64_to_m-int64_from_m a s d h =
      let z = H.double_to_int64 (H.get_scalar a) in
      let u = wrap size_values z in
      Ends.bind (int64_from_m-Ends H a s d) λ b t (held, e).
        rw
          (
            e,
            int64_to_m_lem (to_bytes 8 u) t (length-to_bytes 8 u),
            of_bytes-to_bytes 8 u (wrap-lt_long z),
            signed-wrap_long z h,
          )
          (returns refl)

  -- `str_to_m` reads up to the terminator.
  pub str_to_m_lem :
      (bytes : Bytes) (s : State H) {u : Bytes}
      → c_str bytes ≡ some u
      → str_to_m H bytes s ≡ (returned (chars u), s)
  unfolding str_to_m read_string
  str_to_m_lem bytes s e = rw (e, read_string)

  -- Copying the whole of a block to a uint8 row, or a part of it.
  pub uint8_array_to_m-Ends :
      {E : MexError → State H → Type 0} (bytes : Bytes) (n : ℕ) (s : State H)
      → n ≤ length bytes
      → Ends (λ out t. (out ≡ uint8s 1 n (take n bytes)) × (t ≡ s)) E (uint8_array_to_m H bytes n s)
  unfolding uint8_array_to_m
  uint8_array_to_m-Ends bytes n s h = rw (leb_of_le n (length bytes) h) (returns (refl, refl))

-- The bytes of an array's data.
unfoldable pub layout : Out → Bytes
layout (uint64s m n (x ∷ [])) = to_bytes 8 x
layout (uint32s m n (x ∷ [])) = to_bytes 4 x
layout _ = []

layout_pointer :
    (k p : ℕ)
    → (k ≡ 4) ⊎ (k ≡ 8)
    → layout (if k == 4 then uint32s 1 1 (p ∷ []) else uint64s 1 1 (p ∷ [])) ≡ to_bytes k p
unfolding layout
layout_pointer k p (inl e) = rw e
layout_pointer k p (inr e) = rw e

-- A non-null pointer that is handed to MATLAB is the pointer that is read back from the array.
pub pointer_from_m-pointer_to_m :
    (H : Host) (p : ℕ) (a : H.Array) (s : State H)
    → (H.pointer_size ≡ 4) ⊎ (H.pointer_size ≡ 8)
    → p < 256 ^ H.pointer_size
    → p ≢ 0
    → H.get_data a ≡ layout (pointer_array H p)
    → (pointer_to_m H p s ≡ (returned (pointer_array H p), s))
      × (pointer_from_m H a s ≡ (returned p, s))
unfolding pointer_to_m
pointer_from_m-pointer_to_m H p a s width small valid e =
    let k = H.pointer_size in
    let stored : H.get_data a ≡ to_bytes k p = e ∙ layout_pointer k p width in
    let size = length-to_bytes k p in
    let whole : take k (H.get_data a) ≡ to_bytes k p =
      rw stored (take_all k (to_bytes k p) (omega arith)) in
    let value : pointer_in H a ≡ p = rw whole (of_bytes-to_bytes k p small) in
    let fits : HoldsPointer H a = rw stored (omega arith) in
    (refl, pointer_from_m_lem H a s fits (rw value valid) ∙ ap (λ v. (returned v, s)) value)
