-- ===== src/Can/Proxy/Respond/Node.antt =====
-- The device's answer to GET_NODE_INFO: the loop over its parts ends, and writes within the arrays.
use i2c.Prelude.{
  ℕ, zero, suc, ◌+◌, ◌-◌, ◌≤◌, ◌<◌, ◌≡◌, refl, ◌∙◌, Bool, true, false, some, List, arith, length,
  Bool-cases, inl, inr, leb, min,
}
use i2c.Can.Transfer.{RxTransfer}
use i2c.Can.Transfer.Bytes.{decode_blob_field_within}
use i2c.Can.Proxy.State.{Environment, Info, CanProxy}
use i2c.Can.Proxy.Info.{
  PacketPart, node_info_step, node_info_from, process_get_node_info_response, uid_length,
  max_name_length,
}

-- What an answer about the node does not change.
abbrev pub SameFields : Info → Info → Type 0
SameFields i i' =
    (i'.types ≡ i.types)
    × (i'.fields ≡ i.fields)
    × (i'.address ≡ i.address)
    × (length i'.uid ≡ length i.uid)
    × (length i'.name ≡ length i.name)

-- The number of parts from a part on.
abbrev left : PacketPart → ℕ
left PacketPart.status = 5
left PacketPart.version = 4
left PacketPart.uid = 3
left PacketPart.coa = 2
left PacketPart.name = 1
left PacketPart.idle = 0

module _ (e : Environment) where
  node_info_step_lem :
      (part : PacketPart) (position : ℕ) (payload : List ℕ) (i : Info)
      → (length i.uid ≡ 16) × (length i.name ≡ 80)
      → 1 ≤ left part
      → (part' : PacketPart) × (position' : ℕ) × (i' : Info) × (node_info_step e part position
            payload i
          ≡ some (part', position', i'))
        × (left part' + 1 ≡ left part)
        × (left part' ≡ 0 → length payload ≤ position')
        × SameFields i i'
  unfolding node_info_step
  node_info_step_lem PacketPart.status position payload i sized some_left = (
    _,
    _,
    _,
    refl,
    refl,
    λ none_left. absurd (omega (arith, none_left)),
    (refl, refl, refl, refl, refl),
  )
  node_info_step_lem PacketPart.version position payload i sized some_left = (
    _,
    _,
    _,
    refl,
    refl,
    λ none_left. absurd (omega (arith, none_left)),
    (refl, refl, refl, refl, refl),
  )
  node_info_step_lem PacketPart.uid position payload i sized some_left =
      let (bytes, ran, same) =
        decode_blob_field_within e.scalar payload position uid_length i.uid
          (omega (arith, sized.0)) in
      (
        PacketPart.coa,
        position + uid_length,
        record i { uid = bytes },
        simp ran refl,
        refl,
        λ none_left. absurd (omega (arith, none_left)),
        (refl, refl, refl, same, refl),
      )
  node_info_step_lem PacketPart.coa position payload i sized some_left = (
    _,
    _,
    _,
    refl,
    refl,
    λ none_left. absurd (omega (arith, none_left)),
    (refl, refl, refl, refl, refl),
  )
  node_info_step_lem PacketPart.name position payload i sized some_left =
      let (characters, ran, same) =
        decode_blob_field_within e.scalar payload position
          (min (length payload - position) max_name_length) i.name (omega (arith, sized.1)) in
      (
        PacketPart.idle,
        length payload,
        record i { name = characters },
        simp ran refl,
        refl,
        λ none_left. omega arith,
        (refl, refl, refl, refl, same),
      )
  node_info_step_lem PacketPart.idle position payload i sized some_left =
      absurd (omega (arith, some_left))

  node_info_from_lem :
      (rounds : ℕ) (part : PacketPart) (position : ℕ) (payload : List ℕ) (i : Info)
      → (length i.uid ≡ 16) × (length i.name ≡ 80)
      → left part < rounds
      → (left part ≡ 0 → length payload ≤ position)
      → (part' : PacketPart) × (i' : Info) × (node_info_from e rounds part position payload i
          ≡ some (part', i'))
        × SameFields i i'
  unfolding node_info_from
  node_info_from_lem zero part position payload i sized enough end = absurd (omega (arith, enough))
  node_info_from_lem (suc rounds) part position payload i sized enough end =
      elim (Bool-cases (leb (length payload) position)) [
        | inl over ↦ (part, i, simp over refl, (refl, refl, refl, refl, refl))
        | inr more ↦
            let (part', position', i', ran, less, end', (t, f, a, u, n)) =
              node_info_step_lem part position payload i sized (some_left more) in
            let (part'', i'', ran', (t', f', a', u', n')) =
              node_info_from_lem rounds part' position' payload i' (u ∙ sized.0, n ∙ sized.1)
                (omega (arith, less, enough)) end' in
            (part'', i'', simp (more, ran, ran') refl, (t' ∙ t, f' ∙ f, a' ∙ a, u' ∙ u, n' ∙ n))
      ]
    where
      some_left : leb (length payload) position ≡ false → 1 ≤ left part
      some_left more = ground (arith, more, end)

  -- The answer is read to its end, and at most the uptime, the version, the identifier, the name and the
  -- time of the last status change.
  pub process_get_node_info_response_lem :
      (now : ℕ) (t : RxTransfer) (p : CanProxy)
      → (length p.info.uid ≡ 16) × (length p.info.name ≡ 80)
      → (complete : Bool) × (i : Info) × (process_get_node_info_response e now t p
          ≡ some (complete, record p { info = i }))
        × SameFields p.info i
  unfolding process_get_node_info_response
  process_get_node_info_response_lem now t p sized =
      let (part, i, ran, same) =
        node_info_from_lem 6 PacketPart.status 0 t.payload p.info sized (omega arith)
          (λ none_left. absurd (omega (arith, none_left))) in
      by_part part i ran same
    where
      by_part :
          (part : PacketPart) (i : Info)
          → node_info_from e 6 PacketPart.status 0 t.payload p.info ≡ some (part, i)
          → SameFields p.info i
          → (complete : Bool) × (i' : Info) × (process_get_node_info_response e now t p
              ≡ some (complete, record p { info = i' }))
            × SameFields p.info i'
      by_part PacketPart.idle i ran same = (true, record i { timestamp = now }, simp ran refl, same)
      by_part PacketPart.status i ran same = (false, i, simp ran refl, same)
      by_part PacketPart.version i ran same = (false, i, simp ran refl, same)
      by_part PacketPart.uid i ran same = (false, i, simp ran refl, same)
      by_part PacketPart.coa i ran same = (false, i, simp ran refl, same)
      by_part PacketPart.name i ran same = (false, i, simp ran refl, same)
