-- ===== src/Proxy/Bridge/Chunks.antt =====
-- From the target to the WebSocket.
use workspace_websocket_prox.Base.{
  ℕ, ◌+◌, ◌≡◌, ◌∙◌, ◌⊎◌, sym, refl, ap, inl, inr, Bool, Option, none, some, List, [], ◌∷◌, ◌++◌,
  length, arith, length-append, map, Bool-cases, if◌then◌else◌,
}
use mathlib.Core.List.{append_assoc, append-nil}
use mathlib.Core.Path.{ap₂}
use workspace_websocket_prox.Base.Text.{Text}
use workspace_websocket_prox.Proxy.Bridge.{end_with, Chunk, Pump, blocked, ended, copy_tcp_to_ws}

abbrev pub joined : List Text → Text
joined [] = []
joined (d ∷ ds) = d ++ joined ds

module _ {E : Type 0} where
  -- A read and a write that succeed.
  abbrev pub passed : Text → Chunk E
  passed d = record { bytes = d; read_error = none; write_error = none }

  -- A read that fails, and may have returned bytes as well.
  abbrev pub broken : Text → E → Chunk E
  broken d e = record { bytes = d; read_error = some e; write_error = none }

module _ {E : Type 0} (is_eof : E → Bool) where
  end_lem :
      (ds : List Text) (d : Text) (e : E) (sent : Text) (counted : ℕ)
      → copy_tcp_to_ws is_eof (map passed ds ++ broken d e ∷ []) sent counted
        ≡ end_with
            (sent ++ joined ds)
            (counted + length (joined ds))
            (if is_eof e then none else some e)
  unfolding copy_tcp_to_ws
  end_lem [] d e sent counted = elim (Bool-cases (is_eof e)) [
    | inl c ↦
        rw (c, copy_tcp_to_ws)
          (ap₂ (λ x y. end_with x y none) (sym (append-nil sent)) (omega arith))
    | inr c ↦
        rw (c, copy_tcp_to_ws)
          (ap₂ (λ x y. end_with x y (some e)) (sym (append-nil sent)) (omega arith))
  ]
  end_lem (x ∷ ds) d e sent counted =
      end_lem ds d e (sent ++ x) (counted + length x)
      ∙ ap₂ (λ a b. end_with a b (if is_eof e then none else some e))
          (append_assoc sent x (joined ds)) (omega (arith, length-append x (joined ds)))

  -- When the target's stream ends after reads whose bytes were all written, the client has been
  -- sent exactly those bytes in their order, each counted once, and the result is nil for io.EOF
  -- and the error otherwise. Bytes that the failing read returned with its error are dropped.
  pub copy_tcp_to_ws-ended :
      (ds : List Text) (d : Text) (e : E)
      → copy_tcp_to_ws is_eof (map passed ds ++ broken d e ∷ []) [] 0
        ≡ end_with (joined ds) (length (joined ds)) (if is_eof e then none else some e)
  copy_tcp_to_ws-ended ds d e =
      end_lem ds d e [] 0
      ∙ ap (λ n. end_with (joined ds) n (if is_eof e then none else some e)) (omega arith)

  -- Where the loop stands when `rest` comes after what it has passed on: in its next read, or
  -- returned with what the first of them failed with.
  abbrev pub StopsAt : List (Chunk E) → Pump E → Type 0
  StopsAt [] r = r.progress ≡ blocked
  StopsAt (c ∷ cs) r =
      (e : E) × (((c.read_error ≡ some e)
          × (r.progress ≡ ended (if is_eof e then none else some e)))
        ⊎ ((c.read_error ≡ none) × (c.write_error ≡ some e) × (r.progress ≡ ended (some e))))

  pub record Passes (cs : List (Chunk E)) (sent : Text) (counted : ℕ) (r : Pump E) : Type 0 where
    pub chunks : List Text
    pub rest : List (Chunk E)
    pub reads : cs ≡ map passed chunks ++ rest
    pub sends : r.sent ≡ sent ++ joined chunks
    pub counts : r.counted ≡ counted + length (joined chunks)
    pub stops : StopsAt rest r

  -- A loop that has passed nothing on.
  none-Passes :
      (cs : List (Chunk E)) (sent : Text) (counted : ℕ) (r : Pump E)
      → r.sent ≡ sent
      → r.counted ≡ counted
      → StopsAt cs r
      → Passes cs sent counted r
  none-Passes cs sent counted r s n h = record {
    chunks = [];
    rest = cs;
    reads = refl;
    sends = s ∙ sym (append-nil sent);
    counts = omega (arith, n);
    stops = h;
  }

  next-Passes :
      (d : Text) (cs : List (Chunk E)) (sent : Text) (counted : ℕ) (r : Pump E)
      → Passes cs (sent ++ d) (counted + length d) r
      → Passes (passed d ∷ cs) sent counted r
  next-Passes d cs sent counted r p = record {
    chunks = d ∷ p.chunks;
    rest = p.rest;
    reads = ap (λ xs. passed d ∷ xs) p.reads;
    sends = p.sends ∙ append_assoc sent d (joined p.chunks);
    counts = omega (arith, p.counts, length-append d (joined p.chunks));
    stops = p.stops;
  }

  chunk-Passes :
      (d : Text) (r w : Option E) (cs : List (Chunk E)) (sent : Text) (counted : ℕ)
      → Passes cs
          (sent ++ d)
          (counted + length d)
          (copy_tcp_to_ws is_eof cs (sent ++ d) (counted + length d))
      → let c : Chunk E = record { bytes = d; read_error = r; write_error = w } in
        Passes (c ∷ cs) sent counted (copy_tcp_to_ws is_eof (c ∷ cs) sent counted)
  unfolding copy_tcp_to_ws
  chunk-Passes d (some e) w cs sent counted p = elim (Bool-cases (is_eof e)) [
    | inl b ↦ rw b (none-Passes _ sent counted _ refl refl (e, inl (refl, rw b)))
    | inr b ↦ rw b (none-Passes _ sent counted _ refl refl (e, inl (refl, rw b)))
  ]
  chunk-Passes d none (some e) cs sent counted p =
      none-Passes _ sent counted _ refl refl (e, inr (refl, refl, refl))
  chunk-Passes d none none cs sent counted p = next-Passes d cs sent counted _ p

  -- Whatever the target's reads and the writes to the client answer, copyTCPToWS sends the bytes of
  -- the reads before the first failure, in order and each counted once, and it has returned exactly
  -- if there is a failure: with nil for io.EOF from Read, and otherwise with the error.
  pub copy_tcp_to_ws-Passes :
      (cs : List (Chunk E)) (sent : Text) (counted : ℕ)
      → Passes cs sent counted (copy_tcp_to_ws is_eof cs sent counted)
  unfolding copy_tcp_to_ws
  copy_tcp_to_ws-Passes [] sent counted = none-Passes [] sent counted _ refl refl refl
  copy_tcp_to_ws-Passes (c ∷ cs) sent counted =
      chunk-Passes c.bytes c.read_error c.write_error cs sent counted
        (copy_tcp_to_ws-Passes cs (sent ++ c.bytes) (counted + length c.bytes))
