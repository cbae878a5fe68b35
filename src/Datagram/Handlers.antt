-- ===== src/Datagram/Handlers.antt =====
-- Registration of datagram handlers, and the handler that a frame reaches.
use nerw_rpc.Prelude.{
  ℕ, suc, ◌+◌, ◌^◌, ◌≤◌, ◌<◌, List, [], ◌∷◌, ◌++◌, ◌≡◌, ◌≢◌, ◌⊎◌, inl, inr, refl, ap, ◌∙◌, arith,
  none, some, true, false, ◌==◌, ==_iff, Bool-cases, Option-cases, length, length-append,
  drop-suffix, if◌then◌else◌,
}
use nerw_rpc.Result.{ok, err}
use nerw_rpc.Error.{RpcError}
use nerw_rpc.Wire.{encode_stream_id, decode_stream_id}
use nerw_rpc.Wire.StreamIds.{decode-encode_stream_id}
use nerw_rpc.Context.{RpcContext}
use nerw_rpc.Io.{◌>>=◌, lift}
use nerw_rpc.External.Leb128.{Leb128, Leb128Laws}
use nerw_rpc.Datagram.{
  DatagramDispatcher, DatagramHandler, find, remove, register, unregister, registered_count,
  deliver, deliver_decoded, dispatch,
}

module _ {V : Type 0} where
  -- One entry per key.
  abbrev pub IsDistinct : List (ℕ × V) → Type 0
  IsDistinct [] = Unit
  IsDistinct ((k, _) ∷ m) = (find k m ≡ none) × IsDistinct m

  find-remove_other : (j k : ℕ) (m : List (ℕ × V)) → j ≢ k → find j (remove k m) ≡ find j m
  find-remove_other j k [] d = refl
  find-remove_other j k ((i, v) ∷ m) d = elim (Bool-cases (i == k)) [
    | inl here ↦
        let e : i ≡ k = (==_iff i k).0 here in
        let other : (i == j) ≡ false = ground arith in rw (here, other) refl
    | inr there ↦ rw there (ap (λ o. if i == j then some v else o) (find-remove_other j k m d))
  ]

  find-remove : (k : ℕ) (m : List (ℕ × V)) → IsDistinct m → find k (remove k m) ≡ none
  find-remove k [] d = refl
  find-remove k ((i, v) ∷ m) (fresh, d) = elim (Bool-cases (i == k)) [
    | inl here ↦ let e : i ≡ k = (==_iff i k).0 here in rw here (rw e at fresh)
    | inr there ↦ rw there (rw there (find-remove k m d))
  ]

  remove-IsDistinct : (k : ℕ) (m : List (ℕ × V)) → IsDistinct m → IsDistinct (remove k m)
  remove-IsDistinct k [] d = tt
  remove-IsDistinct k ((i, v) ∷ m) (fresh, d) = elim (Bool-cases (i == k)) [
    | inl here ↦ rw here d
    | inr there ↦
        let other : i ≢ k = λ e. ground arith in
        rw there (find-remove_other i k m other ∙ fresh, remove-IsDistinct k m d)
  ]

  length-remove :
      (k : ℕ) (m : List (ℕ × V)) {v : V} → find k m ≡ some v → suc (length (remove k m)) ≡ length m
  length-remove k [] h = cc
  length-remove k ((i, v) ∷ m) h = elim (Bool-cases (i == k)) [
    | inl here ↦ rw here refl
    | inr there ↦ rw there (ap suc (length-remove k m (rw there at h)))
  ]

  remove_unknown : (k : ℕ) (m : List (ℕ × V)) → find k m ≡ none → remove k m ≡ m
  remove_unknown k [] h = refl
  remove_unknown k ((i, v) ∷ m) h = elim (Bool-cases (i == k)) [
    | inl here ↦ absurd (let bad : some v ≡ none = rw here at h in cc)
    | inr there ↦ rw there (ap (λ l. (i, v) ∷ l) (remove_unknown k m (rw there at h)))
  ]

module _ {W : Type 0} where
  pub register-IsDistinct :
      (id : ℕ) (h : DatagramHandler W) (d : DatagramDispatcher W)
      → IsDistinct d.handlers
      → IsDistinct (register id h d).1.handlers
  unfolding register
  register-IsDistinct id h d distinct = elim (Option-cases (find id d.handlers)) [
    | inl vacant ↦ rw vacant (vacant, distinct)
    | inr (k, taken) ↦ rw taken distinct
  ]

  pub unregister-IsDistinct :
      (id : ℕ) (d : DatagramDispatcher W)
      → IsDistinct d.handlers
      → IsDistinct (unregister id d).1.handlers
  unfolding unregister
  unregister-IsDistinct id d distinct = remove-IsDistinct id d.handlers distinct

  -- `register` either finds the stream id taken, reports the collision and changes nothing, or it
  -- adds the handler under the id, leaves every other id as it was, and keeps one entry per id; an
  -- `unregister` of the id then gives the handler back and restores the dispatcher.
  pub register_lem :
      (id : ℕ) (h : DatagramHandler W) (d : DatagramDispatcher W)
      → IsDistinct d.handlers
      → ((k : DatagramHandler W) × (find id d.handlers ≡ some k)
          × (register id h d ≡ (err (RpcError.datagram_stream_id_collision id), d)))
        ⊎ ((e : DatagramDispatcher W) × (find id d.handlers ≡ none)
            × (register id h d ≡ (ok tt, e))
            × IsDistinct e.handlers
            × (registered_count e ≡ registered_count d + 1)
            × ((j : ℕ) → j ≢ id → find j e.handlers ≡ find j d.handlers)
            × (unregister id e ≡ (some h, d)))
  unfolding register unregister
  register_lem id h d distinct = elim (Option-cases (find id d.handlers)) [
    | inr (k, taken) ↦ inl (k, taken, rw taken refl)
    | inl vacant ↦
        let same : (id == id) ≡ true = (==_iff id id).1 refl in
        inr (
          record { handlers = (id, h) ∷ d.handlers; max_in_flight = d.max_in_flight },
          vacant,
          rw vacant refl,
          (vacant, distinct),
          omega arith,
          λ j differs. let other : (id == j) ≡ false = ground arith in rw other refl,
          rw same refl,
        )
  ]

  -- `unregister` returns the handler of the id, if there is one. Afterwards the id has none, every
  -- other id is as it was, there is still one entry per id, and the size went down by one if there
  -- was a handler; otherwise nothing changed.
  unregister_lem :
      (id : ℕ) (d : DatagramDispatcher W)
      → IsDistinct d.handlers
      → let e = (unregister id d).1 in
        ((unregister id d).0 ≡ find id d.handlers)
        × (find id e.handlers ≡ none)
        × ((j : ℕ) → j ≢ id → find j e.handlers ≡ find j d.handlers)
        × IsDistinct e.handlers
        × (((k : DatagramHandler W) × (find id d.handlers ≡ some k)
              × (registered_count e + 1 ≡ registered_count d))
            ⊎ ((find id d.handlers ≡ none) × (e ≡ d)))
  unfolding unregister
  unregister_lem id d distinct = (
    refl,
    find-remove id d.handlers distinct,
    λ j differs. find-remove_other j id d.handlers differs,
    remove-IsDistinct id d.handlers distinct,
    elim (Option-cases (find id d.handlers)) [
      | inr (k, known) ↦ inl (k, known, omega (arith, length-remove id d.handlers known))
      | inl unknown ↦ inr (
        unknown,
        ap (λ m. record { handlers = m; max_in_flight = d.max_in_flight })
            (remove_unknown id d.handlers unknown),
      )
    ],
  )

module _ {W : Type 0} {l : Leb128} (laws : Leb128Laws l) (d : DatagramDispatcher W) where
  dispatch-nonempty :
      (ctx : RpcContext) (frame : List ℕ) (w : W)
      → 1 ≤ length frame
      → dispatch l d ctx frame w
        ≡ (lift (decode_stream_id l frame) >>= deliver_decoded d ctx frame) w
  unfolding dispatch
  dispatch-nonempty ctx [] w h = absurd (omega arith)
  dispatch-nonempty ctx (b ∷ s) w h = refl

  dispatch-deliver :
      (id : ℕ) (payload wire : List ℕ) (ctx : RpcContext) (w : W)
      → 1 ≤ length wire
      → decode_stream_id l (wire ++ payload) ≡ ok (id, payload)
      → dispatch l d ctx (wire ++ payload) w ≡ deliver (find id d.handlers) id ctx payload w
  dispatch-deliver id payload wire ctx w some_bytes back =
      dispatch-nonempty ctx (wire ++ payload) w (omega (arith, length-append wire payload))
      ∙ rw back (rw (drop-suffix wire payload) refl)

  -- A datagram whose prefix is the encoding of a stream id runs the handler that is registered under
  -- this id, on exactly the payload behind the prefix, or, if there is none, it is refused with the
  -- error for this unknown id and changes nothing. An empty datagram is refused as too short.
  pub dispatch-encode :
      (id : ℕ) (payload : List ℕ) (ctx : RpcContext) (w : W)
      → id < 2 ^ 64
      → ((wire : List ℕ) × (encode_stream_id l id [] ≡ ok wire)
          × (((h : DatagramHandler W) × (find id d.handlers ≡ some h)
                × (dispatch l d ctx (wire ++ payload) w ≡ h ctx payload w))
              ⊎ ((find id d.handlers ≡ none)
                  × (dispatch l d ctx (wire ++ payload) w
                      ≡ (err (RpcError.datagram_stream_id_unknown id), w)))))
        × (dispatch l d ctx [] w ≡ (err (RpcError.datagram_too_short 0), w))
  unfolding dispatch
  dispatch-encode id payload ctx w h =
      let (wire, e, lo, hi, back) = decode-encode_stream_id laws id [] h in
      let reached = dispatch-deliver id payload wire ctx w lo (back payload) in
      (
        (
          wire,
          e,
          elim (Option-cases (find id d.handlers)) [
            | inr (handler, known) ↦ inl (handler, known, rw known at reached)
            | inl unknown ↦ inr (unknown, rw unknown at reached)
          ],
        ),
        refl,
      )
