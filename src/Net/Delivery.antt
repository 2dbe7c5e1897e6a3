-- ===== src/Net/Delivery.antt =====
-- The loop of `doWrite`, over what a handler has to send.
use obsto_cpp.Base.{
  Bool, true, false, [], ◌∷◌, ◌++◌, append-nil, append_assoc, ◌≡◌, refl, sym, ap, subst, ◌∙◌,
}
use obsto_cpp.Text.{Bytes}
use obsto_cpp.Outcome.{returned}
use obsto_cpp.Net.{
  ProtocolHandler, Pending, writing, posted, Session, write_done, post_run, after_write, do_write,
  handle, bytes_written, posted_run, Step, completes, Reach, here, next,
}

-- `takeOutgoingBytes`, called until nothing more is to be sent, gives these bytes.
pub data Sends {H : Type 0} (p : ProtocolHandler H) : H → Bytes → H → Type 0 where
  last :
      {h k : H} {bytes : Bytes}
      → p.take_outgoing_bytes h ≡ returned (bytes, k)
      → p.has_more_to_send k ≡ false
      → Sends p h bytes k
  more :
      {h k m : H} {bytes rest sent : Bytes}
      → p.take_outgoing_bytes h ≡ returned (bytes, k)
      → p.has_more_to_send k ≡ true
      → Sends p k rest m
      → sent ≡ bytes ++ rest
      → Sends p h sent m

module _ {H : Type 0} (p : ProtocolHandler H) where
  -- one step in front
  then-Reach : {s t u : Session H} → Step p s t → Reach p t u → Reach p s u
  then-Reach st here = next here st
  then-Reach st (next r last_step) = next (then-Reach st r) last_step

  -- the state that `doWrite` leads to, if all of it is written
  abbrev sent : Bool → Session H → Bytes → H → Session H
  sent keep s bytes k = after_write keep (record s { handler = k; output = s.output ++ bytes })

  -- `doWrite` goes on to `u`.
  abbrev Leads : Bool → Session H → Session H → Type 0
  Leads keep s u = (t : Session H) × (do_write p false keep s ≡ returned t) × Reach p t u

  sent_anywhere :
      (keep : Bool) (s : Session H) (q : Pending) (bytes : Bytes) (k : H)
      → sent keep (record s { pending = q }) bytes k ≡ sent keep s bytes k
  sent_anywhere true s q bytes k = refl
  sent_anywhere false s q bytes k = refl

  sent_round :
      (keep : Bool) (s : Session H) (q : Pending) (bytes rest : Bytes) (k m : H)
      → sent keep (record s { handler = k; pending = q; output = s.output ++ bytes }) rest m
        ≡ sent keep s (bytes ++ rest) m
  sent_round true s q bytes rest k m = rw append_assoc refl
  sent_round false s q bytes rest k m = rw append_assoc refl

  last_sent :
      (keep : Bool) (s : Session H) (bytes : Bytes) (k : H)
      → s.is_open ≡ true
      → p.take_outgoing_bytes s.handler ≡ returned (bytes, k)
      → p.has_more_to_send k ≡ false
      → Leads keep s (sent keep s bytes k)
  unfolding do_write handle
  last_sent keep s [] k opened taken done =
      (sent keep s [] k, rw (taken, done, append-nil s.output) refl, here)
  last_sent keep s (c ∷ bytes) k opened taken done = (
    record s { handler = k; pending = writing (c ∷ bytes) keep },
    rw taken refl,
    next here (
        completes (write_done false) (bytes_written (c ∷ bytes) keep false refl opened)
          (rw done (ap (λ (t : Session H). returned t) (sent_anywhere keep s _ (c ∷ bytes) k)))),
  )

  -- One round of the loop, at the end of which the handler has more.
  round :
      (keep : Bool) (s u : Session H) (bytes : Bytes) (k : H)
      → s.is_open ≡ true
      → p.take_outgoing_bytes s.handler ≡ returned (bytes, k)
      → p.has_more_to_send k ≡ true
      → ((q : Pending)
          → Leads keep (record s { handler = k; pending = q; output = s.output ++ bytes }) u)
      → Leads keep s u
  unfolding do_write handle
  round keep s u [] k opened taken going leads =
      let (t, e, r) = leads (posted keep) in
      (
        record s { handler = k; pending = posted keep },
        rw (taken, going) refl,
        then-Reach
            (completes (post_run false) (posted_run keep false refl)
              (rw (append-nil s.output) at e))
            r,
      )
  round keep s u (c ∷ bytes) k opened taken going leads =
      let (t, e, r) = leads (writing (c ∷ bytes) keep) in
      (
        record s { handler = k; pending = writing (c ∷ bytes) keep },
        rw taken refl,
        then-Reach
            (completes (write_done false) (bytes_written (c ∷ bytes) keep false refl opened)
              (rw going e))
            r,
      )

  -- What a handler has to send is delivered, if no write fails and the socket stays open: from
  -- `doWrite` the session comes to where all of the bytes are written, behind those from before, and
  -- reads on, or drains the connection where the handler had refused.
  pub delivered :
      (keep : Bool) (s : Session H) {h m : H} {bytes : Bytes}
      → Sends p h bytes m
      → s.handler ≡ h
      → s.is_open ≡ true
      → (t : Session H) × (do_write p false keep s ≡ returned t)
        × Reach p t (after_write keep (record s { handler = m; output = s.output ++ bytes }))
  delivered keep s {m = m} (last {bytes = bytes} taken done) at opened =
      last_sent keep s bytes m opened (rw at taken) done
  delivered keep s {m = m} (more {k = k} {bytes = bytes} {rest = rest} taken going sends whole) at
        opened =
      round keep s _ bytes k opened (rw at taken) going (λ q.
        subst (Leads keep (record s { handler = k; pending = q; output = s.output ++ bytes }))
          (sent_round keep s q bytes rest k m ∙ ap (λ b. sent keep s b m) (sym whole))
          (delivered keep (record s { handler = k; pending = q; output = s.output ++ bytes }) sends
            refl opened))
