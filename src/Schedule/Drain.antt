-- ===== src/Schedule/Drain.antt =====
-- `send_outstanding_packets` on a queue of packets to forward: it ends, sends what is due, and leaves the
-- rest.
use batman_adv_userspace.Base.{
  ℕ, ◌≤◌, ◌≡◌, refl, sym, ap, ap₂, ◌∙◌, List, [], ◌∷◌, ◌++◌, Bool, false, Option, none, some, ◌&&◌,
  not, ◌==◌, ltb, bit_and, if◌then◌else◌, length, arith, inl, inr, Bool-cases, Option-cases,
}
use mathlib.Core.Path.{subst}
use mathlib.Core.List.{append-nil, append_assoc}
use batman_adv_userspace.Routes.{same_ptr}
use batman_adv_userspace.Mesh.{BatmanPacket, BatmanIf, ForwNode, Event, Mesh, ◌>>=◌, emit}
use batman_adv_userspace.Schedule.Send.{WriteResult, send_loop, send_packet}
use batman_adv_userspace.Schedule.Defs.{
  directlink_flag, htons, send_on, send_all, transmit, send_due, send_outstanding_packets,
}

-- The packets at the head of the queue that are due, and the queue from the first that is not.
unfoldable pub due : ℕ → List ForwNode → List ForwNode
due now [] = []
due now (n ∷ r) = if ltb now n.send_time then [] else n ∷ due now r

unfoldable pub not_due : ℕ → List ForwNode → List ForwNode
not_due now [] = []
not_due now (n ∷ r) = if ltb now n.send_time then n ∷ r else not_due now r

-- None of the packets is the node's own.
unfoldable pub AreForwarded : List ForwNode → Type 0
AreForwarded [] = Unit
AreForwarded (n ∷ r) = (n.own ≡ false) × AreForwarded r

-- The packet as it goes out on an interface, with these flags.
abbrev pub ogm_on : ForwNode → ℕ → ℕ → Event
ogm_on n flags if_num =
    let old : BatmanPacket = n.pack in
    Event.ogm if_num (record old { seqno = htons old.seqno; flags = flags }) n.pack_hna
      n.pack_buff_len

abbrev has_flag : ForwNode → Bool
has_flag n = not (bit_and n.pack.flags directlink_flag == 0)

-- One copy for each interface; the direct-link flag is set on the outgoing one only.
unfoldable pub on_all : ForwNode → List BatmanIf → List Event
on_all n [] = []
on_all n (i ∷ ifs) =
    ogm_on n (if has_flag n && same_ptr n.if_outgoing (some i.if_num) then directlink_flag else 0)
      i.if_num
    ∷ on_all n ifs

-- What goes out of a packet to forward: on all interfaces, but on its outgoing interface only where it is
-- a direct-link packet on its last hop.
unfoldable pub outgoing : List BatmanIf → ForwNode → List Event
unfolding on_all
outgoing ifs n =
    let old : BatmanPacket = n.pack in
    elim n.if_outgoing [
      | none ↦ if has_flag n then [] else on_all n ifs
      | some i ↦ if has_flag n && old.ttl == 1 then ogm_on n old.flags i ∷ [] else on_all n ifs
    ]

unfoldable pub outgoing_all : List BatmanIf → List ForwNode → List Event
unfolding outgoing
outgoing_all ifs [] = []
outgoing_all ifs (n ∷ r) = outgoing ifs n ++ outgoing_all ifs r

abbrev sends : List Event → Mesh → Mesh
sends es h = record h { events = h.events ++ es }

sends-sends : (es fs : List Event) (h : Mesh) → sends fs (sends es h) ≡ sends (es ++ fs) h
sends-sends es fs h =
    ap (λ (gs : List Event). record h { events = gs }) (append_assoc h.events es fs)

sends-nil : (h : Mesh) → sends [] h ≡ h
sends-nil h = ap (λ (gs : List Event). record h { events = gs }) (append-nil h.events)

-- The state in which the due packets of the queue have gone out and are no longer queued.
unfoldable pub drained : ℕ → List ForwNode → Mesh → Mesh
drained now queue h = record h {
  forw_list = not_due now queue;
  events = h.events ++ outgoing_all h.if_list (due now queue);
}

abbrev after_run : Mesh → Option (Unit {0} × Mesh)
after_run h = some (tt, h)

stays :
    (queue : List ForwNode) (h : Mesh)
    → h.forw_list ≡ queue
    → after_run h ≡ after_run (record h { forw_list = queue; events = h.events ++ [] })
stays queue h q =
    ap₂
      (λ (fs : List ForwNode) (es : List Event).
        after_run (record h { forw_list = fs; events = es }))
      q (sym (append-nil h.events))

joined :
    (queue : List ForwNode) (es fs : List Event) (h : Mesh)
    → after_run (record h { forw_list = queue; events = (h.events ++ es) ++ fs })
      ≡ after_run (record h { forw_list = queue; events = h.events ++ (es ++ fs) })
joined queue es fs h =
    ap (λ (gs : List Event). after_run (record h { forw_list = queue; events = gs }))
      (append_assoc h.events es fs)

due_step :
    (now : ℕ) (n : ForwNode) (r : List ForwNode)
    → ltb now n.send_time ≡ false
    → due now (n ∷ r) ≡ n ∷ due now r
unfolding due
due_step now n r e = rw e refl

forwarded_step :
    (n : ForwNode) (r : List ForwNode) → AreForwarded (n ∷ r) → (n.own ≡ false) × AreForwarded r
unfolding AreForwarded
forwarded_step n r f = f

module _ (write : ℕ → ℕ → WriteResult) (ok : (i j : ℕ) → write i j ≡ WriteResult.written) where
  send_on_lem :
      (n : ForwNode) (pack : BatmanPacket) (i : ℕ) (h : Mesh)
      → send_on write n pack i h
        ≡ some (tt, sends (Event.ogm i pack n.pack_hna n.pack_buff_len ∷ []) h)
  unfolding send_on send_packet send_loop emit
  send_on_lem n pack i h = rw (send_on, send_packet, send_loop, ok i 0) refl

  send_all_lem :
      (n : ForwNode) (ifs : List BatmanIf) (h : Mesh)
      → send_all write n (record n.pack { seqno = htons n.pack.seqno }) (has_flag n) ifs h
        ≡ some (tt, sends (on_all n ifs) h)
  unfolding send_all on_all
  send_all_lem n [] h = ap (λ (g : Mesh). some (tt, g)) (sym (sends-nil h))
  send_all_lem n (i ∷ ifs) h =
      rw (send_all, send_on, send_packet, send_loop, ok i.if_num 0)
        (send_all_lem n ifs _ ∙ ap (λ (g : Mesh). some (tt, g)) (sends-sends _ (on_all n ifs) h))

  send_all_known :
      (n : ForwNode) (b : Bool)
      → has_flag n ≡ b
      → (ifs : List BatmanIf) (h : Mesh)
      → send_all write n (record n.pack { seqno = htons n.pack.seqno }) b ifs h
        ≡ some (tt, sends (on_all n ifs) h)
  send_all_known n b e ifs h = rw (← e) (send_all_lem n ifs h)

  transmit_lem :
      (n : ForwNode) (h : Mesh)
      → n.own ≡ false
      → transmit write n h ≡ some (tt, sends (outgoing h.if_list n) h)
  unfolding transmit outgoing
  transmit_lem n h forwarded = elim (Option-cases n.if_outgoing) [
    | inl e ↦ elim (Bool-cases (has_flag n)) [
      | inl d ↦
          rw (transmit, ◌>>=◌, e, d, outgoing) (ap (λ (g : Mesh). some (tt, g)) (sym (sends-nil h)))
      | inr d ↦
          rw (transmit, ◌>>=◌, e, d, forwarded, outgoing)
            (send_all_known (record n { own = false }) false d h.if_list h)
    ]
    | inr (i, e) ↦ elim (Bool-cases (has_flag n && n.pack.ttl == 1)) [
      | inl d ↦ rw (transmit, ◌>>=◌, e, d, outgoing) (send_on_lem n _ i h)
      | inr d ↦ rw (transmit, ◌>>=◌, e, d, forwarded, outgoing) (send_all_lem n h.if_list h)
    ]
  ]

  round_forwarded :
      (k interval now : ℕ) (d : ℕ × ℕ) (draws : List (ℕ × ℕ)) (n : ForwNode) (r : List ForwNode)
      (h after : Mesh)
      → ltb now n.send_time ≡ false
      → n.own ≡ false
      → transmit write n h ≡ some (tt, after)
      → send_due write k interval now (d ∷ draws) (n ∷ r) h
        ≡ send_due write k interval now draws r (record after { forw_list = r })
  unfolding send_due
  round_forwarded k interval now d draws n r h after e own t = rw (send_due, e, ◌>>=◌, t, own) refl

  drain :
      (k interval now : ℕ) (draws : List (ℕ × ℕ)) (queue : List ForwNode) (h : Mesh)
      → h.forw_list ≡ queue
      → AreForwarded (due now queue)
      → length (due now queue) ≤ length draws
      → send_due write k interval now draws queue h ≡ some (tt, drained now queue h)
  unfolding send_due due not_due outgoing_all drained
  drain k interval now draws [] h q f le = stays [] h q
  drain k interval now [] (n ∷ r) h q f le = elim (Bool-cases (ltb now n.send_time)) [
    | inl e ↦ rw (send_due, drained, due, not_due, e) (stays (n ∷ r) h q)
    | inr e ↦ absurd omega (arith, ap length (due_step now n r e), le)
  ]
  drain k interval now (d ∷ draws) (n ∷ r) h q f le = elim (Bool-cases (ltb now n.send_time)) [
    | inl e ↦ rw (send_due, drained, due, not_due, e) (stays (n ∷ r) h q)
    | inr e ↦
        let (own, f') = forwarded_step n (due now r) (subst AreForwarded (due_step now n r e) f) in
        let shorter : length (due now r) ≤ length draws =
          omega (arith, ap length (due_step now n r e), le) in
        let after = sends (outgoing h.if_list n) h in
        round_forwarded k interval now d draws n r h after e own (transmit_lem n h own)
        ∙ drain k interval now draws r (record after { forw_list = r }) refl f' shorter
        ∙ rw (drained, due, not_due, e) (joined _ (outgoing h.if_list n) _ h)
  ]

-- send_outstanding_packets, where all writes succeed and the due packets at the head of the queue are
-- packets to forward, ends after as many rounds as there are such packets; they have all gone out, in
-- their order, and the queue starts with the first packet that is not due. Nothing else changes.
pub send_outstanding_packets_lem :
    (write : ℕ → ℕ → WriteResult) (k interval now : ℕ) (draws : List (ℕ × ℕ)) (h : Mesh)
    → ((i j : ℕ) → write i j ≡ WriteResult.written)
    → AreForwarded (due now h.forw_list)
    → length (due now h.forw_list) ≤ length draws
    → send_outstanding_packets write k interval now draws h ≡ some (tt, drained now h.forw_list h)
unfolding send_outstanding_packets
send_outstanding_packets_lem write k interval now draws h ok f le =
    drain write ok k interval now draws h.forw_list h refl f le
