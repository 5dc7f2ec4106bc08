-- ===== src/Streaming/Chunks.antt =====
-- Where a stream is cut into chunks does not matter (app/streaming.py, `feed`).
use mathlib.Core.List.{append_assoc, append-nil}
use kunlun_model_gateway.Base.{
  ℕ, ◌+◌, ◌≡◌, refl, ◌∙◌, ap, false, not, ◌&&◌, ◌||◌, Option, List, [], ◌∷◌, ◌++◌, ltb, ◌==◌,
  length, arith, inl, inr, Bool-cases, sym, Bool, true, ◌⊎◌, length-append,
}
use kunlun_model_gateway.Base.Result.{
  Result, ok, err, guard, ◌>>=◌, Ensures, Ensures-ok, Ensures-bind, Ensures-guard,
}
use kunlun_model_gateway.Json.{Json}
use kunlun_model_gateway.Streaming.{
  Counters, SseUsageTracker, drain, has_newline, feed, is_return, rstrip, parse_line,
}

bind-drain :
    {A B : Type 0} (m : Result Counters) (f : Counters → Result A) (g : Counters → Result B)
    (k : B → Result A)
    → ((u : Counters) → f u ≡ g u >>= k)
    → m >>= f ≡ (m >>= g) >>= k
unfolding ◌>>=◌
bind-drain (ok u) f g k h = h u
bind-drain (err e) f g k h = refl

bind_ok : {A B : Type 0} (m : Result A) (a : A) (k : A → Result B) → m ≡ ok a → m >>= k ≡ k a
unfolding ◌>>=◌
bind_ok m a k e = rw e refl

and_false : (b : Bool) → b && false ≡ false
and_false true = refl
and_false false = refl

not-true : (b : Bool) → not b ≡ true → b ≡ false
not-true true e = cc
not-true false e = refl

module _ (loads : List ℕ → Option Json) where
  has_newline-append : (a b : List ℕ) → has_newline (a ++ b) ≡ has_newline a || has_newline b
  unfolding has_newline
  has_newline-append [] b = refl
  has_newline-append (c ∷ a) b = ground (arith, has_newline-append a b)

  drain-newline :
      (line : List ℕ) (c : ℕ) (cs : List ℕ) (u : Counters)
      → (c == 10) ≡ true
      → drain loads line (c ∷ cs) u
        ≡ parse_line loads (rstrip is_return line) u >>= drain loads [] cs
  unfolding drain
  drain-newline line c cs u e = rw (drain, e) refl

  drain-other :
      (line : List ℕ) (c : ℕ) (cs : List ℕ) (u : Counters)
      → (c == 10) ≡ false
      → drain loads line (c ∷ cs) u ≡ drain loads (line ++ (c ∷ [])) cs u
  unfolding drain
  drain-other line c cs u e = rw (drain, e) refl

  drain-append :
      (line a b : List ℕ) (u : Counters)
      → drain loads line (a ++ b) u ≡ drain loads line a u >>= λ x. drain loads x.1 b x.0
  unfolding drain ◌>>=◌
  drain-append line [] b u = refl
  drain-append line (c ∷ a) b u = elim (Bool-cases (c == 10)) [
    | inl newline ↦
        drain-newline line c (a ++ b) u newline
        ∙ bind-drain (parse_line loads (rstrip is_return line) u) _ (drain loads [] a) _
            (drain-append [] a b)
        ∙ ap (λ m. m >>= λ x. drain loads x.1 b x.0) (sym (drain-newline line c a u newline))
    | inr other ↦
        drain-other line c (a ++ b) u other
        ∙ drain-append (line ++ (c ∷ [])) a b u
        ∙ ap (λ m. m >>= λ x. drain loads x.1 b x.0) (sym (drain-other line c a u other))
  ]

  -- A text without a newline is only kept.
  drain-keep :
      (line a b : List ℕ) (u : Counters)
      → has_newline a ≡ false
      → drain loads line (a ++ b) u ≡ drain loads (line ++ a) b u
  unfolding drain has_newline
  drain-keep line [] b u e = rw append-nil refl
  drain-keep line (c ∷ a) b u e = elim (Bool-cases (c == 10)) [
    | inl newline ↦ absurd (ground (arith, newline))
    | inr other ↦
        drain-other line c (a ++ b) u other
        ∙ drain-keep (line ++ (c ∷ [])) a b u (ground (arith, other))
        ∙ ap (λ l. drain loads l b u) (append_assoc line (c ∷ []) a)
  ]

  -- What is kept of a line never has a newline.
  drain-rest :
      (line a : List ℕ) (u : Counters)
      → has_newline line ≡ false
      → Ensures (λ (x : Counters × List ℕ). has_newline x.1 ≡ false) (drain loads line a u)
  unfolding drain
  drain-rest line [] u e = Ensures-ok _ e
  drain-rest line (c ∷ a) u e = elim (Bool-cases (c == 10)) [
    | inl newline ↦
        rw (drain-newline line c a u newline)
          (Ensures-bind _ _ λ v _. drain-rest [] a v (unfold has_newline in refl))
    | inr other ↦
        rw (drain-other line c a u other)
          (drain-rest (line ++ (c ∷ [])) a u (one_more line c e other))
  ]
    where
      one_more :
          (l : List ℕ) (d : ℕ)
          → has_newline l ≡ false
          → (d == 10) ≡ false
          → has_newline (l ++ (d ∷ [])) ≡ false
      one_more l d e other = has_newline-append l (d ∷ []) ∙ (unfold has_newline in ground arith)

  -- A call of `feed` that returned.
  record Fed (chunk : List ℕ) (s s' : SseUsageTracker) : Type 0 where
    pub room : ltb s.max_bytes (s.total_bytes + length chunk) ≡ false
    pub line_room :
        ltb 1_048_576 (length (s.buffer ++ chunk)) && not (has_newline (s.buffer ++ chunk)) ≡ false
    pub drained : drain loads [] (s.buffer ++ chunk) s.counters ≡ ok (s'.counters, s'.buffer)
    pub same_max : s'.max_bytes ≡ s.max_bytes
    pub total : s'.total_bytes ≡ s.total_bytes + length chunk

  feed-Fed : (chunk : List ℕ) (s s' : SseUsageTracker) → feed loads chunk s ≡ ok s' → Fed chunk s s'
  unfolding feed
  feed-Fed chunk s s' e =
      (Ensures-guard {P = Fed chunk s} _ _ _ λ room. Ensures-guard _ _ _ λ line_room.
          Ensures-bind _ _ λ x drained. Ensures-ok _ (record {
            room = not-true _ room;
            line_room = not-true _ line_room;
            drained = drained;
            same_max = refl;
            total = refl;
          })).returned
        s' e

  feed-of_Fed :
      (chunk : List ℕ) (s s' : SseUsageTracker) → Fed chunk s s' → feed loads chunk s ≡ ok s'
  unfolding feed guard ◌>>=◌
  feed-of_Fed chunk s s' f = rw (f.room, f.line_room, f.drained) (cc)

  -- A text without a newline is what is left of it.
  kept_whole :
      (a : List ℕ) (u v : Counters) (rest : List ℕ)
      → has_newline a ≡ false
      → drain loads [] a u ≡ ok (v, rest)
      → rest ≡ a
  kept_whole a u v rest plain e =
      let whole : drain loads [] a u ≡ ok (u, a) =
        ap (λ l. drain loads [] l u) (sym (append-nil a))
        ∙ drain-keep [] a [] u plain
        ∙ (unfold drain in refl) in
      cc

  joined_line :
      (a b : List ℕ) (s s1 : SseUsageTracker)
      → Fed a s s1
      → (ltb 1_048_576 (length (s1.buffer ++ b)) && not (has_newline (s1.buffer ++ b)) ≡ false)
      → has_newline (s.buffer ++ a) ≡ false
      → ltb 1_048_576 (length ((s.buffer ++ a) ++ b)) && not (has_newline ((s.buffer ++ a) ++ b))
        ≡ false
  joined_line a b s s1 f room plain =
      rw (sym (kept_whole (s.buffer ++ a) s.counters s1.counters s1.buffer plain f.drained)) room

  -- When two chunks are accepted one after the other, feeding them at once is accepted too, with the
  -- same counts and the same rest kept for the next chunk, wherever the cut is, inside a line or a
  -- character or between them. (The tracker holds no complete line. The converse fails: a line of
  -- more than 1 MiB is refused when its end comes in a second chunk.)
  pub feed-append :
      (a b : List ℕ) (s s1 s2 : SseUsageTracker)
      → has_newline s.buffer ≡ false
      → feed loads a s ≡ ok s1
      → feed loads b s1 ≡ ok s2
      → feed loads (a ++ b) s ≡ ok s2
  feed-append a b s s1 s2 plain e e' =
      let f = feed-Fed a s s1 e in
      let g = feed-Fed b s1 s2 e' in
      let rest_plain =
        (drain-rest [] (s.buffer ++ a) s.counters (unfold has_newline in refl)).returned
          (s1.counters, s1.buffer) f.drained in
      let join = append_assoc s.buffer a b in
      feed-of_Fed (a ++ b) s s2 (record {
        room =
            ap (ltb s.max_bytes)
              (ap (λ n. s.total_bytes + n) (length-append a b) ∙ omega (arith, f.total) ∙ refl)
            ∙ ap (λ m. ltb m (s1.total_bytes + length b)) (sym f.same_max)
            ∙ g.room;
        line_room =
            ap (λ l. ltb 1_048_576 (length l) && not (has_newline l)) (sym join)
            ∙ joined_check a b s s1 f g.line_room (Bool-cases (has_newline (s.buffer ++ a)));
        drained =
            ap (λ l. drain loads [] l s.counters) (sym join)
            ∙ drain-append [] (s.buffer ++ a) b s.counters
            ∙ bind_ok (drain loads [] (s.buffer ++ a) s.counters) (s1.counters, s1.buffer)
                (λ (x : Counters × List ℕ). drain loads x.1 b x.0) f.drained
            ∙ sym (drain-keep [] s1.buffer b s1.counters rest_plain)
            ∙ g.drained;
        same_max = g.same_max ∙ f.same_max;
        total = omega (arith, f.total, g.total, length-append a b);
      })
    where
      joined_check :
          (a b : List ℕ) (s s1 : SseUsageTracker)
          → Fed a s s1
          → (ltb 1_048_576 (length (s1.buffer ++ b)) && not (has_newline (s1.buffer ++ b)) ≡ false)
          → ((has_newline (s.buffer ++ a) ≡ true) ⊎ (has_newline (s.buffer ++ a) ≡ false))
          → ltb 1_048_576 (length ((s.buffer ++ a) ++ b))
              && not (has_newline ((s.buffer ++ a) ++ b))
            ≡ false
      joined_check a b s s1 f room (inl broken) =
          rw (has_newline-append (s.buffer ++ a) b, broken)
            (and_false (ltb 1_048_576 (length ((s.buffer ++ a) ++ b))))
      joined_check a b s s1 f room (inr whole) = joined_line a b s s1 f room whole
