-- ===== src/Core/Poll/Items.antt =====
-- The items of poll.c: what is read from the structure array, and the rows that are returned.
use matlab_zmq.Prelude.{
  true, ◌||◌, eq_ℤ, take, Option, ap, get_elem?, ◌+◌, ◌⊎◌, length, ℕ, ◌≡◌, List, String, ℤ, [], ◌∷◌,
  none, some, refl, inl, inr, pos, negsuc, zero, suc,
}
use matlab_zmq.Mex.Exec.Ends.{throws, returns, Ends}
use matlab_zmq.Mex.Memory.Laws.{cast-Ends, read-Ends}
use matlab_zmq.Core.Poll.{
  eq_ℤ, pointer_array, Option, length, ℕ, List, ℤ, parse_rounds, parse_poll_items, poll_item,
  result_rows, rounds,
}
use matlab_zmq.Util.Conversions.ToM.{pointer_array}
use matlab_zmq.Util.Conversions.FromM.Laws.{HoldsPointer, pointer_in}
use matlab_zmq.Mex.Memory.{State}
use matlab_zmq.Mex.Host.{Host, PollItem}
use matlab_zmq.Mex.Exec.Ends

module _ (H : Host) (items : H.Array) (socket_num events_num : ℤ) where
  -- The item of row `i`: the pointer and the events of its two fields.
  pub record IsItem (i : ℕ) (x : PollItem) : Type 0 where
    pub socket_field : H.Array
    pub events_field : H.Array
    pub has_socket : H.get_field_by_number items i socket_num ≡ some socket_field
    pub has_events : H.get_field_by_number items i events_num ≡ some events_field
    pub socket_read : x.socket ≡ pointer_in H socket_field
    pub events_read : x.events ≡ H.double_to_short (H.get_scalar events_field)
    pub no_file : x.fd ≡ pos 0

  -- The items of `n` rows from row `i`, in order.
  abbrev pub AreItems : ℕ → ℕ → List PollItem → Type 0
  AreItems i zero [] = Unit
  AreItems i zero (x ∷ xs) = ⊥
  AreItems i (suc n) [] = ⊥
  AreItems i (suc n) (x ∷ xs) = IsItem i x × AreItems (i + 1) n xs

  -- Every socket field is large enough for a pointer, and the number of every events field is a
  -- value of type `short`.
  abbrev pub FieldsHold : Type 0
  FieldsHold =
      ((i : ℕ) (f : H.Array) → H.get_field_by_number items i socket_num ≡ some f → HoldsPointer H f)
      × ((i : ℕ) (f : H.Array)
          → H.get_field_by_number items i events_num ≡ some f
          → H.casts_to_short f ≡ true)

module _ (H : Host) (items : H.Array) (socket_num events_num : ℤ)
    (holds : FieldsHold H items socket_num events_num) where
  poll_item-Ends :
      (i : ℕ) (s : State H) (a b : Option H.Array)
      → H.get_field_by_number items i socket_num ≡ a
      → H.get_field_by_number items i events_num ≡ b
      → Ends
          (λ x t. (t ≡ s) × IsItem H items socket_num events_num i x)
          (λ e t. (t ≡ s) × (e.id ≡ "zmq:core:poll:invalidField"))
          (poll_item H i a b s)
  poll_item-Ends i s (some f) (some g) e k =
      Ends.bind_value _ (take H.pointer_size (H.get_data f)) s
        (read-Ends H H.pointer_size (H.get_data f) s (holds.0 i f e))
        (Ends.bind_value _ (H.double_to_short (H.get_scalar g)) s
          (cast-Ends H (H.casts_to_short g) (H.double_to_short (H.get_scalar g)) s (holds.1 i g k))
          (returns (
            refl,
            record {
              socket_field = f;
              events_field = g;
              has_socket = e;
              has_events = k;
              socket_read = refl;
              events_read = refl;
              no_file = refl;
            },
          )))
  poll_item-Ends i s (some f) none e k = throws (refl, refl)
  poll_item-Ends i s none b e k = throws (refl, refl)

  -- The loop reads every row in order, or throws at one without its fields. Nothing else happens.
  pub parse_rounds-AreItems :
      (left i : ℕ) (s : State H)
      → Ends
          (λ xs t. (t ≡ s) × AreItems H items socket_num events_num i left xs)
          (λ e t. (t ≡ s) × (e.id ≡ "zmq:core:poll:invalidField"))
          (parse_rounds H items socket_num events_num left i s)
  unfolding parse_rounds
  parse_rounds-AreItems zero i s = returns (refl, tt)
  parse_rounds-AreItems (suc left) i s =
      Ends.bind_same _ s (poll_item-Ends i s _ _ refl refl) λ x is_item.
        Ends.bind_same _ s (parse_rounds-AreItems left (i + 1) s)
          λ xs are. returns (refl, (is_item, are))

module _ (H : Host) where
  abbrev pub ParseErrors : String → Type 0
  ParseErrors i = (i ≡ "zmq:core:poll:missingFields") ⊎ (i ≡ "zmq:core:poll:invalidField")

  pub parse_poll_items-Ends :
      (items : H.Array) (nitems : ℤ) (s : State H)
      → FieldsHold H items (H.get_field_number items "socket") (H.get_field_number items "events")
      → Ends
          (λ xs t.
            (t ≡ s)
            × AreItems H items
                (H.get_field_number items "socket")
                (H.get_field_number items "events")
                0
                (rounds nitems)
                xs)
          (λ e t. (t ≡ s) × ParseErrors e.id)
          (parse_poll_items H items nitems s)
  unfolding parse_poll_items
  parse_poll_items-Ends items nitems s holds =
      Ends.reject
        (eq_ℤ (H.get_field_number items "socket") (negsuc 0)
          || eq_ℤ (H.get_field_number items "events") (negsuc 0))
        _ _ _ s (λ e. (refl, inl refl))
        λ there.
          Ends.mono (parse_rounds-AreItems H items _ _ holds (rounds nitems) 0 s) (λ xs t q. q)
            (λ e t (now, known). (now, inr known))

  -- There is one row for each item, with its socket.
  pub length-result_rows :
      (items : List PollItem) (events : List ℤ) → length (result_rows H items events) ≡ length items
  length-result_rows [] events = refl
  length-result_rows (x ∷ items) [] = ap suc (length-result_rows items [])
  length-result_rows (x ∷ items) (e ∷ events) = ap suc (length-result_rows items events)

  pub get_elem?-result_rows :
      (items : List PollItem) (events : List ℤ) (k : ℕ) {x : PollItem} {e : ℤ}
      → get_elem? items k ≡ some x
      → get_elem? events k ≡ some e
      → get_elem? (result_rows H items events) k
        ≡ some (record { socket = pointer_array H x.socket; revents = e })
  get_elem?-result_rows [] events k h g = cc
  get_elem?-result_rows (y ∷ items) [] k h g = cc
  get_elem?-result_rows (y ∷ items) (d ∷ events) zero {x} {e} h g =
      let same : y ≡ x = cc in let seen : d ≡ e = cc in rw (same, seen)
  get_elem?-result_rows (y ∷ items) (d ∷ events) (suc k) h g =
      get_elem?-result_rows items events k h g
