-- ===== src/Core/Setsockopt/Values.antt =====
-- The conversion of an option's value: for each type of the table, the block holds the value, and
-- the length that is handed to libzmq stays inside it.
use matlab_zmq.Prelude.{
  take_all, take, arith, length, ltb, true, ◌≡◌, ◌≤◌, ◌⊎◌, Bytes, String, ℕ, ℤ, refl, inl, inr, pos,
  negsuc, zero, suc,
}
use matlab_zmq.Util.Conversions.FromM.Laws.{
  str_from_m-Ends, int_from_m-Ends, uint32_from_m-Ends, int64_from_m-Ends, uint64_from_m-Ends,
  TextErrors, Fails, IsText,
}
use matlab_zmq.Prelude.Words.{int_values, size_values, wrap, length-to_bytes, to_bytes}
use matlab_zmq.Util.Sockopt.Laws.{option_is_typed, IsOption, is_typed}
use matlab_zmq.Core.Setsockopt.{
  length, SockoptDesc, Block, SockoptType, find_sockopt_type_by_id, ℕ, converted, value_length,
}
use matlab_zmq.Mex.Exec.{returned, MexError}
use matlab_zmq.Mex.Memory.Laws.{Holds}
use matlab_zmq.Mex.Exec.Ends.{Ends}
use matlab_zmq.Util.Sockopt.{SockoptDesc, SockoptType, find_sockopt_type_by_id}
use matlab_zmq.Util.Table.{scan}
use matlab_zmq.Mex.Memory.{Block, State}
use matlab_zmq.Mex.Host.{Host, IsLawful}
use matlab_zmq.Util.Socket.Laws.{IsSockType, SockTypeErrors, socktype_from_m-Ends}
use matlab_zmq.Util.Sockopt.MechanismLaws.{IsMechanism, MechanismErrors, mechanism_from_m-Ends}
use matlab_zmq.Mex.Exec.Ends

module _ (H : Host) where
  -- The number of a value of an integer type is a value of that type.
  abbrev pub CastsAs : ℤ → H.Array → Type 0
  CastsAs (pos zero) a = H.casts_to_uint64 a ≡ true
  CastsAs (pos (suc zero)) a = H.casts_to_int64 a ≡ true
  CastsAs (pos (suc (suc zero))) a = H.casts_to_uint32 a ≡ true
  CastsAs (pos (suc (suc (suc zero)))) a = H.casts_to_int a ≡ true
  CastsAs (pos (suc (suc (suc (suc n))))) a = Unit
  CastsAs (negsuc n) a = Unit

  -- The bytes that libzmq reads of the block, by the number of the type: of a text, as many as the
  -- array has elements; of every other value, the whole block.
  abbrev pub IsPassed : ℤ → H.Array → Block → Bytes → Type 0
  IsPassed (pos (suc (suc (suc (suc zero))))) a b bytes =
      bytes ≡ take (H.get_number_of_elements a) b.bytes
  IsPassed (pos (suc (suc (suc (suc (suc zero)))))) a b bytes =
      bytes ≡ take (H.get_number_of_elements a) b.bytes
  IsPassed z a b bytes = bytes ≡ b.bytes

module _ (H : Host) (lawful : IsLawful H) where
  -- What the block of a value holds, by the number of the type: the integers in their width, the
  -- text with its terminator, or the number that a name stands for.
  abbrev pub Encodes : ℤ → H.Array → Block → Type 0
  Encodes (pos zero) a b = b.bytes ≡ to_bytes 8 (H.double_to_uint64 (H.get_scalar a))
  Encodes (pos (suc zero)) a b =
      b.bytes ≡ to_bytes 8 (wrap size_values (H.double_to_int64 (H.get_scalar a)))
  Encodes (pos (suc (suc zero))) a b = b.bytes ≡ to_bytes 4 (H.double_to_uint32 (H.get_scalar a))
  Encodes (pos (suc (suc (suc zero)))) a b =
      b.bytes ≡ to_bytes 4 (wrap int_values (H.double_to_int (H.get_scalar a)))
  Encodes (pos (suc (suc (suc (suc zero))))) a b = IsText H a b
  Encodes (pos (suc (suc (suc (suc (suc zero)))))) a b = IsText H a b
  Encodes (pos (suc (suc (suc (suc (suc (suc zero))))))) a b = IsSockType H lawful a b
  Encodes (pos (suc (suc (suc (suc (suc (suc (suc zero)))))))) a b = IsMechanism H lawful a b
  Encodes (pos (suc (suc (suc (suc (suc (suc (suc (suc n))))))))) a b = ⊥
  Encodes (negsuc n) a b = ⊥

  -- The value is in the block, and so are the bytes that libzmq will read.
  pub record IsValue (type : SockoptType H) (a : H.Array) (b : Block) : Type 0 where
    pub encodes : Encodes type.id a b
    pub fits : value_length H type a ≤ length b.bytes

  abbrev pub ValueErrors : String → Type 0
  ValueErrors i = SockTypeErrors H lawful i ⊎ MechanismErrors H lawful i

  text_fits : (a : H.Array) (b : Block) → IsText H a b → H.get_number_of_elements a ≤ length b.bytes
  text_fits a b t = omega (arith, lawful.elements a, lawful.fits_memory a, t.size)

  -- Every type of the table converts a value to such a block, or throws.
  abbrev pub Converts : ℤ → SockoptType H → Type 0
  Converts z type =
      (a : H.Array) (s : State H)
      → CastsAs H z a
      → Ends (λ b t. Holds b s t × IsValue type a b) (Fails ValueErrors s)
          (converted H type.from_m a s)

  -- An integer or a name in a block of `n` bytes.
  sized : (n x : ℕ) (b : Block) → b.bytes ≡ to_bytes n x → n ≤ length b.bytes
  sized n x b e = rw e (omega (arith, length-to_bytes n x))

  whole : (n x : ℕ) (b : Block) → b.bytes ≡ to_bytes n x → take n b.bytes ≡ b.bytes
  whole n x b e = take_all n b.bytes (rw e (omega (arith, length-to_bytes n x)))

  no_memory_error :
      {s : State H} (e : MexError) (t : State H)
      → Fails (λ i. i ≡ "util:calloc") s e t
      → Fails ValueErrors s e t
  no_memory_error e t f = record { id_known = inl (inl f.id_known); quiet = f.quiet }

  text_error :
      {s : State H} (e : MexError) (t : State H)
      → Fails (TextErrors H) s e t
      → Fails ValueErrors s e t
  text_error e t f = record { id_known = inl (inr (inl f.id_known)); quiet = f.quiet }

  -- The row of a type number, which is found.
  pub record Row (z : ℤ) : Type 0 where
    pub type : SockoptType H
    pub lookup : (s : State H) → find_sockopt_type_by_id H z s ≡ (returned type, s)
    pub converts : Converts z type
    pub numbered : type.id ≡ z
    pub passes :
        (a : H.Array) (b : Block)
        → Encodes z a b
        → IsPassed H z a b (take (value_length H type a) b.bytes)

  type_numbered : (n : ℕ) → ltb n 8 ≡ true → Row (pos n)
  unfolding find_sockopt_type_by_id scan
  type_numbered zero h = record {
    type = _;
    lookup = λ s. refl;
    numbered = refl;
    passes = λ a b e. whole 8 _ b e;
    converts = λ a t casts.
        Ends.mono (uint64_from_m-Ends H a t casts)
          (λ b u (held, e). (held, record { encodes = e; fits = sized 8 _ b e })) no_memory_error;
  }
  type_numbered (suc zero) h = record {
    type = _;
    lookup = λ s. refl;
    numbered = refl;
    passes = λ a b e. whole 8 _ b e;
    converts = λ a t casts.
        Ends.mono (int64_from_m-Ends H a t casts)
          (λ b u (held, e). (held, record { encodes = e; fits = sized 8 _ b e })) no_memory_error;
  }
  type_numbered (suc (suc zero)) h = record {
    type = _;
    lookup = λ s. refl;
    numbered = refl;
    passes = λ a b e. whole 4 _ b e;
    converts = λ a t casts.
        Ends.mono (uint32_from_m-Ends H a t casts)
          (λ b u (held, e). (held, record { encodes = e; fits = sized 4 _ b e })) no_memory_error;
  }
  type_numbered (suc (suc (suc zero))) h = record {
    type = _;
    lookup = λ s. refl;
    numbered = refl;
    passes = λ a b e. whole 4 _ b e;
    converts = λ a t casts.
        Ends.mono (int_from_m-Ends H a t casts)
          (λ b u (held, e). (held, record { encodes = e; fits = sized 4 _ b e })) no_memory_error;
  }
  type_numbered (suc (suc (suc (suc zero)))) h = record {
    type = _;
    lookup = λ s. refl;
    numbered = refl;
    passes = λ a b e. refl;
    converts = λ a t casts.
        Ends.mono (str_from_m-Ends H lawful a t)
          (λ b u (held, e). (held, record { encodes = e; fits = text_fits a b e })) text_error;
  }
  type_numbered (suc (suc (suc (suc (suc zero))))) h = record {
    type = _;
    lookup = λ s. refl;
    numbered = refl;
    passes = λ a b e. refl;
    converts = λ a t casts.
        Ends.mono (str_from_m-Ends H lawful a t)
          (λ b u (held, e). (held, record { encodes = e; fits = text_fits a b e })) text_error;
  }
  type_numbered (suc (suc (suc (suc (suc (suc zero)))))) h = record {
    type = _;
    lookup = λ s. refl;
    numbered = refl;
    passes = λ a b e. whole 4 _ b e.value;
    converts = λ a t casts.
        Ends.mono (socktype_from_m-Ends H lawful a t)
          (λ b u (held, e). (held, record { encodes = e; fits = sized 4 _ b e.value }))
          (λ e u f. record { id_known = inl f.id_known; quiet = f.quiet });
  }
  type_numbered (suc (suc (suc (suc (suc (suc (suc zero))))))) h = record {
    type = _;
    lookup = λ s. refl;
    numbered = refl;
    passes = λ a b e. whole 4 _ b e.value;
    converts = λ a t casts.
        Ends.mono (mechanism_from_m-Ends H lawful a t)
          (λ b u (held, e). (held, record { encodes = e; fits = sized 4 _ b e.value }))
          (λ e u f. record { id_known = inr f.id_known; quiet = f.quiet });
  }
  type_numbered (suc (suc (suc (suc (suc (suc (suc (suc n)))))))) h = absurd (ground arith)

  type_found_at : (z : ℤ) → is_typed z ≡ true → Row z
  unfolding is_typed
  type_found_at (negsuc n) h = cc
  type_found_at (pos n) h = type_numbered n h

  -- The type of an option that was found by name is found too, and converts values.
  pub find_type_of_option : (name : Bytes) (r : SockoptDesc) → IsOption H name r → Row r.type_id
  find_type_of_option name r is = type_found_at r.type_id (option_is_typed H name r is)
