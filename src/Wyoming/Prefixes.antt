-- ===== src/Wyoming/Prefixes.antt =====
-- ReadEvent does not look past a frame, and does not take less than one.
use ai_assistant_driver.Common.{
  ℕ, zero, suc, ◌≤◌, ◌≡◌, refl, sym, ap, ◌∙◌, inl, inr, Option, some, [], ◌∷◌, ◌++◌, length, take,
  length-append, append-nil, drop-append_le, Bytes, Result, ok, err, arith, Option-cases,
  Result-cases,
}
use ai_assistant_driver.Common.Int.{ℤ, pos_part}
use ai_assistant_driver.Wyoming.{
  Event, Codec, ReadError, read_full, read_line, read_data, read_payload, read_event, cons_line,
}
use ai_assistant_driver.Wyoming.Framing.{frame, read_event-frame}

read_line-append :
    (stream more line rest : Bytes)
    → read_line stream ≡ some (line, rest)
    → read_line (stream ++ more) ≡ some (line, rest ++ more)
unfolding read_line cons_line
read_line-append [] more line rest e = cc
read_line-append (c ∷ stream) more line rest e = elim (Option-cases (read_line stream)) [
  | inl nothing ↦ ground (arith, nothing)
  | inr ((l, r), found) ↦ ground (arith, found, read_line-append stream more l r found)
]

take-append_le : (n : ℕ) (xs ys : Bytes) → n ≤ length xs → take n (xs ++ ys) ≡ take n xs
take-append_le zero xs ys h = refl
take-append_le (suc n) [] ys h = absurd (omega arith)
take-append_le (suc n) (x ∷ xs) ys h = ap (λ t. x ∷ t) (take-append_le n xs ys (omega arith))

read_full-append_more :
    (n : ℕ) (stream more b rest : Bytes)
    → read_full n stream ≡ some (b, rest)
    → read_full n (stream ++ more) ≡ some (b, rest ++ more)
unfolding read_full
read_full-append_more n stream more b rest e =
    ground
      (arith, length-append stream more, take-append_le n stream more, drop-append_le n stream more)

rests_equal :
    {D : Type 0} {e e' : Event D} {p p' : Option Bytes} {r r' : Bytes}
    → ◌≡◌ {A = Result ReadError (Event D × Option Bytes × Bytes)} (ok (e, p, r)) (ok (e', p', r'))
    → r ≡ r'
rests_equal h = cc

module _ {D : Type 0} (codec : Codec D) where
  read_data-append_more :
      (n : ℤ) (stream more : Bytes) (d : D) (rest : Bytes)
      → read_data codec n stream ≡ ok (d, rest)
      → read_data codec n (stream ++ more) ≡ ok (d, rest ++ more)
  unfolding read_data
  read_data-append_more n stream more d rest e =
      elim (Option-cases (read_full (pos_part n) stream)) [
        | inl nothing ↦ ground (arith, nothing)
        | inr ((b, r), found) ↦
            ground (arith, found, read_full-append_more (pos_part n) stream more b r found)
      ]

  read_payload-append_more :
      (n : ℤ) (stream more : Bytes) (p : Option Bytes) (rest : Bytes)
      → read_payload codec n stream ≡ ok (p, rest)
      → read_payload codec n (stream ++ more) ≡ ok (p, rest ++ more)
  unfolding read_payload
  read_payload-append_more n stream more p rest e =
      elim (Option-cases (read_full (pos_part n) stream)) [
        | inl nothing ↦ ground (arith, nothing)
        | inr ((b, r), found) ↦
            ground (arith, found, read_full-append_more (pos_part n) stream more b r found)
      ]

  -- More input behind a frame joins the rest and changes nothing else.
  read_event-append :
      (stream more : Bytes) (e : Event D) (p : Option Bytes) (rest : Bytes)
      → read_event codec stream ≡ ok (e, p, rest)
      → read_event codec (stream ++ more) ≡ ok (e, p, rest ++ more)
  unfolding read_event
  read_event-append stream more e p rest h = elim (Option-cases (read_line stream)) [
    | inl no_line ↦ ground (arith, no_line)
    | inr ((line, r1), lined) ↦ elim (Option-cases (codec.unmarshal_header line)) [
      | inl no_header ↦ ground (arith, lined, no_header)
      | inr (header, parsed) ↦ elim (Result-cases (read_data codec header.data_length r1)) [
        | inl (x, no_data) ↦ ground (arith, lined, parsed, no_data)
        | inr ((d, r2), got_data) ↦
            elim (Result-cases (read_payload codec header.payload_length r2)) [
              | inl (x, no_payload) ↦ ground (arith, lined, parsed, got_data, no_payload)
              | inr ((p', r3), got_payload) ↦ ground (
                arith,
                lined,
                parsed,
                got_data,
                got_payload,
                read_line-append stream more line r1 lined,
                read_data-append_more header.data_length r1 more d r2 got_data,
                read_payload-append_more header.payload_length r2 more p' r3 got_payload,
              )
            ]
      ]
    ]
  ]

  -- A frame that is cut off anywhere, even by one byte, is not read as an event: ReadEvent reports
  -- an error.
  pub read_event_truncated :
      (e : Event D) (json payload : Bytes) (c : ℕ) (front back : Bytes)
      → codec.marshal_data e.json ≡ some json
      → frame codec e json payload ≡ front ++ c ∷ back
      → (x : ReadError) × (read_event codec front ≡ err x)
  read_event_truncated e json payload c front back marshalled cut =
      elim (Result-cases (read_event codec front)) [
        | inl failed ↦ failed
        | inr ((e', p, rest), read) ↦ absurd (nothing_left rest (whole e' p rest read))
      ]
    where
      nothing_left : (rest : Bytes) → rest ++ c ∷ back ≡ [] → ⊥
      nothing_left [] h = cc
      nothing_left (x ∷ rest) h = cc

      whole :
          (e' : Event D) (p : Option Bytes) (rest : Bytes)
          → read_event codec front ≡ ok (e', p, rest)
          → rest ++ c ∷ back ≡ []
      whole e' p rest read =
          let all = read_event-frame codec e json payload [] marshalled in
          let cut_read = read_event-append front (c ∷ back) e' p rest read in
          rests_equal (
            sym cut_read
            ∙ ap (read_event codec) (sym cut ∙ sym (append-nil (frame codec e json payload)))
            ∙ all)
