-- ===== src/Protocol/Trace/State.antt =====
-- `validTracestate` against a list of members that is written out.
use marketmesh.Prelude.{
  ℕ, suc, ◌≤◌, ◌≡◌, refl, sym, ap, ◌∙◌, true, false, List, [], ◌∷◌, ◌++◌, map, arith, ltb, ◌==◌,
  unless_iff, or_false, not-false, length, All, Distinct, contains, All-map, All-zip,
}
use mathlib.Core.List.{append-nil}
use marketmesh.Protocol.Messages.{Bytes}
use marketmesh.Protocol.Bytes.{bytes_discrete, last, split}
use marketmesh.Protocol.Bytes.Spec.{every_iff}
use marketmesh.Protocol.Bytes.Split.{split_one, split_field, last-append}
use marketmesh.Protocol.Members.Spec.{Unseen, Unseen-cons}
use marketmesh.Protocol.Trace.{
  valid_tracestate_key, printable, tracestate_members, valid_tracestate,
}
use marketmesh.Protocol.Trace.Members.{
  Member, IsValid, member_text, IsMemberText, text-IsMemberText, member_end, key_start, All-append,
}

-- The members joined by commas, as a tracestate header is written.
unfoldable pub render : Member → List Member → Bytes
render m [] = member_text m
render m (n ∷ ms) = member_text m ++ (b',' ∷ render n ms)

split-render :
    (m : Member) (ms : List Member)
    → All IsMemberText (m ∷ ms)
    → split b',' (render m ms) ≡ map member_text (m ∷ ms)
unfolding render
split-render m [] h = split_one b',' (member_text m) h.0.no_comma
split-render m (n ∷ ms) h =
    split_field b',' (member_text m) (render n ms) h.0.no_comma
    ∙ ap (◌∷◌ (member_text m)) (split-render n ms h.1)

printable-render :
    (m : Member) (ms : List Member)
    → All IsMemberText (m ∷ ms)
    → All (λ c. printable c ≡ true) (render m ms)
unfolding render
printable-render m [] h = h.0.all_printable
printable-render m (n ∷ ms) h =
    All-append _ (member_text m) (b',' ∷ render n ms) h.0.all_printable
      (unfold printable in refl, printable-render n ms h.1)

-- The keys are looked up among those seen.
tracestate_members-map :
    (seen : List Bytes) (ms : List Member)
    → All IsValid ms
    → All IsMemberText ms
    → Distinct (map (λ (m : Member). m.key) ms)
    → All (Unseen bytes_discrete seen) (map (λ (m : Member). m.key) ms)
    → tracestate_members seen (map member_text ms) ≡ true
unfolding tracestate_members
tracestate_members-map seen [] v t d u = refl
tracestate_members-map seen (m ∷ ms) v t d u =
    rw (t.0.parts, tracestate_members, v.0.0, v.0.1, u.0)
      (tracestate_members-map (m.key ∷ seen) ms v.1 t.1 d.1 (
        All-map _ _ (map (λ (m : Member). m.key) ms)
          (λ k. (Unseen-cons bytes_discrete m.key seen k).1) (All-zip _ _ _ d.0 u.1)))

-- What is written ends in the last value, and not in a comma.
render_end :
    (b : ℕ) (m : Member) (ms : List Member)
    → All IsValid (m ∷ ms)
    → (last b (render m ms) == b',') ≡ false
unfolding render
render_end b m [] v = member_end b m.key m.value v.0.1
render_end b m (n ∷ ms) v =
    rw (last-append b b',' (member_text m) (render n ms)) (render_end b',' n ms v.1)

render_start :
    (key value rest : Bytes) (c : ℕ) (cs : Bytes)
    → valid_tracestate_key key ≡ true
    → (key ++ (b'=' ∷ value)) ++ rest ≡ c ∷ cs
    → (c == b',') ≡ false
unfolding valid_tracestate_key
render_start [] value rest c cs h e = cc
render_start (k ∷ ks) value rest c cs h e = let same : k ≡ c = cc in rw (← same) (key_start k ks h)

texts : (ms : List Member) → All IsValid ms → All IsMemberText ms
texts [] v = tt
texts (m ∷ ms) v = (text-IsMemberText m.key m.value v.0.0 v.0.1, texts ms v.1)

length-map : (ms : List Member) → length (map member_text ms) ≡ length ms
length-map [] = refl
length-map (m ∷ ms) = ap suc (length-map ms)

Unseen-nil : (ks : List Bytes) → All (Unseen bytes_discrete []) ks
unfolding contains
Unseen-nil [] = tt
Unseen-nil (k ∷ ks) = (refl, Unseen-nil ks)

render_first :
    (m : Member) (ms : List Member) (c : ℕ) (cs : Bytes)
    → IsValid m
    → render m ms ≡ c ∷ cs
    → (c == b',') ≡ false
unfolding render
render_first m [] c cs v e = render_start m.key m.value [] c cs v.0 (append-nil _ ∙ e)
render_first m (n ∷ ms) c cs v e = render_start m.key m.value (b',' ∷ render n ms) c cs v.0 e

-- What `validTracestate` makes of members that are joined by commas.
pub valid_tracestate-render :
    (m : Member) (ms : List Member) (c : ℕ) (cs : Bytes)
    → All IsValid (m ∷ ms)
    → Distinct (map (λ (n : Member). n.key) (m ∷ ms))
    → length (m ∷ ms) ≤ 32
    → render m ms ≡ c ∷ cs
    → valid_tracestate c cs ≡ true
unfolding valid_tracestate
valid_tracestate-render m ms c cs v d n e = (unless_iff _ _).1 (
  (or_false _ _).1 (render_first m ms c cs v.0 e, ends),
  (unless_iff _ _).1
      ((not-false _).1 ((every_iff printable (c ∷ cs)).1 shown), (unless_iff _ _).1 (few, all)),
)
  where
    t : All IsMemberText (m ∷ ms)
    t = texts (m ∷ ms) v

    ends : (last c cs == b',') ≡ false
    ends = ap (λ (x : Bytes). last 0 x == b',') (sym e) ∙ render_end 0 m ms v

    shown : All (λ b. printable b ≡ true) (c ∷ cs)
    shown = rw e at (printable-render m ms t)

    members : split b',' (c ∷ cs) ≡ map member_text (m ∷ ms)
    members = ap (split b',') (sym e) ∙ split-render m ms t

    few : ltb 32 (length (split b',' (c ∷ cs))) ≡ false
    few = rw members (ground (arith, length-map ms))

    all : tracestate_members [] (split b',' (c ∷ cs)) ≡ true
    all = rw members (
        tracestate_members-map [] (m ∷ ms) v t d
          (Unseen-nil (map (λ (n : Member). n.key) (m ∷ ms))))
