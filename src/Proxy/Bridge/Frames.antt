-- ===== src/Proxy/Bridge/Frames.antt =====
-- From the WebSocket to the target.
use workspace_websocket_prox.Base.{
  ℕ, ◌+◌, ◌≤◌, ◌≡◌, ◌≢◌, ◌∙◌, ◌⊎◌, inl, inr, sym, ap, refl, subst, Bool, Bool-cases, if_both,
  Option, none, some, List, [], ◌∷◌, ◌++◌, ◌==◌, length, arith, if◌then◌else◌,
}
use workspace_websocket_prox.Base.{take, drop, take-append-drop, length-append, take-length}
use mathlib.Core.List.{append_assoc, append-nil}
use workspace_websocket_prox.Base.Text.{Text}
use workspace_websocket_prox.Proxy.Bridge.{
  binary_message, close_normal_closure, close_going_away, Progress, blocked, Pump, Frame,
  read_failed, frame, copy_ws_to_tcp,
}

module _ {E : Type 0} where
  -- The data of the binary messages, one after the other.
  abbrev pub binary_payload : List (Frame E) → Text
  binary_payload [] = []
  binary_payload (read_failed e ∷ fs) = binary_payload fs
  binary_payload (frame type data' n w ∷ fs) =
      if type == binary_message then data' ++ binary_payload fs else binary_payload fs

  -- What net.Conn documents of Write: n is at most the length of the data, and less than that only
  -- with an error.
  abbrev pub IsWriter : List (Frame E) → Type 0
  IsWriter [] = Unit {0}
  IsWriter (read_failed e ∷ fs) = IsWriter fs
  IsWriter (frame type data' n none ∷ fs) = (n ≡ length data') × IsWriter fs
  IsWriter (frame type data' n (some e) ∷ fs) = (n ≤ length data') × IsWriter fs

module _ {E : Type 0} (is_close_error : E → List ℕ → Bool) where
  -- The rest of `whole` when `part` is taken off its front.
  abbrev pub IsPrefix : Text → Text → Type 0
  IsPrefix part whole = (rest : Text) × (part ++ rest ≡ whole)

  cut : (sent d p : Text) (n : ℕ) → IsPrefix (sent ++ take n d) (sent ++ (d ++ p))
  cut sent d p n = (
    drop n d ++ p,
    append_assoc sent (take n d) (drop n d ++ p)
        ∙ ap (λ x. sent ++ x)
            (sym (append_assoc (take n d) (drop n d) p) ∙ ap (λ x. x ++ p) (take-append-drop n d)),
  )

  append_lem :
      (fs : List (Frame E)) (sent : Text) (counted : ℕ)
      → IsWriter fs
      → IsPrefix (copy_ws_to_tcp is_close_error fs sent counted).sent (sent ++ binary_payload fs)
  unfolding copy_ws_to_tcp
  append_lem [] sent counted h = ([], refl)
  append_lem (read_failed e ∷ fs) sent counted h =
      if_both (λ (p : Pump E). IsPrefix p.sent (sent ++ binary_payload fs))
        (is_close_error e (close_normal_closure ∷ close_going_away ∷ [])) (binary_payload fs, refl)
        (binary_payload fs, refl)
  append_lem (frame type d n none ∷ fs) sent counted h =
      elim (Bool-cases (type == binary_message)) [
        | inr c ↦ rw (c, copy_ws_to_tcp) (append_lem fs sent counted h.1)
        | inl c ↦
            let r = append_lem fs (sent ++ take n d) (counted + n) h.1 in
            rw (c, copy_ws_to_tcp)
              (
                r.0,
                r.1
                    ∙ append_assoc sent (take n d) (binary_payload fs)
                    ∙ ap (λ x. sent ++ (x ++ binary_payload fs))
                        (ap (λ m. take m d) h.0 ∙ take-length d),
              )
      ]
  append_lem (frame type d n (some e) ∷ fs) sent counted h =
      elim (Bool-cases (type == binary_message)) [
        | inr c ↦ rw (c, copy_ws_to_tcp) (append_lem fs sent counted h.1)
        | inl c ↦ rw (c, copy_ws_to_tcp) (cut sent d (binary_payload fs) n)
      ]

  -- Everything has been passed on and counted, unless the loop has returned.
  abbrev pub IsComplete : Pump E → Text → ℕ → Type 0
  IsComplete p whole counted = (p.progress ≢ blocked) ⊎ ((p.sent ≡ whole) × (p.counted ≡ counted))

  ended-ne-blocked : (e : Option E) → Progress.ended e ≢ blocked
  ended-ne-blocked e h = ground arith

  passed_on :
      (sent d p : Text) (n counted : ℕ) (r : Pump E)
      → n ≡ length d
      → IsComplete r ((sent ++ take n d) ++ p) (counted + n + length p)
      → IsComplete r (sent ++ (d ++ p)) (counted + length (d ++ p))
  passed_on sent d p n counted r e (inl x) = inl x
  passed_on sent d p n counted r e (inr (x, y)) = inr (
    x
        ∙ append_assoc sent (take n d) p
        ∙ ap (λ x. sent ++ (x ++ p)) (ap (λ m. take m d) e ∙ take-length d),
    omega (arith, length-append d p, y, e),
  )

  complete_lem :
      (fs : List (Frame E)) (sent : Text) (counted : ℕ)
      → IsWriter fs
      → IsComplete
          (copy_ws_to_tcp is_close_error fs sent counted)
          (sent ++ binary_payload fs)
          (counted + length (binary_payload fs))
  unfolding copy_ws_to_tcp
  complete_lem [] sent counted h = inr (sym (append-nil sent), omega arith)
  complete_lem (read_failed e ∷ fs) sent counted h =
      if_both
        (λ (p : Pump E).
          IsComplete p (sent ++ binary_payload fs) (counted + length (binary_payload fs)))
        (is_close_error e (close_normal_closure ∷ close_going_away ∷ []))
        (inl (ended-ne-blocked none)) (inl (ended-ne-blocked (some e)))
  complete_lem (frame type d n none ∷ fs) sent counted h =
      elim (Bool-cases (type == binary_message)) [
        | inr c ↦ rw (c, copy_ws_to_tcp) (complete_lem fs sent counted h.1)
        | inl c ↦
            rw (c, copy_ws_to_tcp)
              (passed_on sent d (binary_payload fs) n counted
                (copy_ws_to_tcp is_close_error fs (sent ++ take n d) (counted + n)) h.0
                (complete_lem fs (sent ++ take n d) (counted + n) h.1))
      ]
  complete_lem (frame type d n (some e) ∷ fs) sent counted h =
      elim (Bool-cases (type == binary_message)) [
        | inr c ↦ rw (c, copy_ws_to_tcp) (complete_lem fs sent counted h.1)
        | inl c ↦ rw (c, copy_ws_to_tcp) (inl (ended-ne-blocked (some e)))
      ]

  -- If Write keeps what net.Conn documents, then whatever the client sends the target is given
  -- the bytes of the binary messages in their order: a prefix of them always, and all of them,
  -- each counted once, as long as copyWSToTCP has not returned.
  pub copy_ws_to_tcp-IsPrefix :
      (fs : List (Frame E))
      → IsWriter fs
      → IsPrefix (copy_ws_to_tcp is_close_error fs [] 0).sent (binary_payload fs)
        × IsComplete
            (copy_ws_to_tcp is_close_error fs [] 0)
            (binary_payload fs)
            (length (binary_payload fs))
  copy_ws_to_tcp-IsPrefix fs h = (
    append_lem fs [] 0 h,
    subst (λ n. IsComplete (copy_ws_to_tcp is_close_error fs [] 0) (binary_payload fs) n)
        (omega arith) (complete_lem fs [] 0 h),
  )
