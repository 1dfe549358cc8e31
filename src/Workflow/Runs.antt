-- ===== src/Workflow/Runs.antt =====
-- Runs of a graph: they are deterministic, and where a rank falls along every edge they end.
use mathlib.Core.Path.{subst}
use dox.Prelude.{
  ℕ, zero, suc, ◌<◌, ◌≡◌, refl, sym, ◌∙◌, ap, none, some, arith, inl, inr, Option-cases,
}
use dox.Workflow.{Graph, Config, Step, Reach, fire, here, then, after, run, finish}

module _ {Node S : Type 0} (g : Graph Node S) where
  pub run-Reach : (k : ℕ) (c : Config Node S) → Reach g c (run g k c)
  unfolding run
  run-Reach zero c = here refl
  run-Reach (suc k) (none, s) = here refl
  run-Reach (suc k) (some n, s) = then (after g n s) (fire n refl refl) (run-Reach k (after g n s))

  Step-same : (c d e : Config Node S) → Step g c d → Step g c e → d ≡ e
  Step-same c d e (fire n from to) (fire m from' to') =
      let same : n ≡ m = cc (from, from') in to ∙ ap (λ k. after g k c.1) same ∙ sym to'

  ended-Step : (c d : Config Node S) → c.0 ≡ none → Step g c d → ⊥
  ended-Step c d e (fire n from to) = cc (e, from)

  -- What is reached from the start of a run that ends lies on that run.
  pub Reach-ends : (c d e : Config Node S) → Reach g c d → Reach g c e → e.0 ≡ none → Reach g d e
  Reach-ends c d e (here p) r end = subst (λ x. Reach g x e) p r
  Reach-ends c d e (then f step rest) (here q) end =
      absurd (ended-Step c f (ap (λ x. x.0) q ∙ end) step)
  Reach-ends c d e (then f step rest) (then f' step' rest') end =
      Reach-ends f d e rest (subst (λ x. Reach g x e) (Step-same c f' f step' step) rest') end

  run-none : (k : ℕ) (s : S) → (run g k (none, s)).0 ≡ none
  unfolding run
  run-none zero s = refl
  run-none (suc k) s = refl

  pub run-ends :
      (rank : Node → ℕ)
      → ((n m : Node) (s : S) → g.next n s ≡ some m → rank m < rank n)
      → (k : ℕ) (n : Node) (s : S) → rank n < k
      → (run g k (some n, s)).0 ≡ none
  unfolding run
  run-ends rank falls zero n s h = absurd (omega arith)
  run-ends rank falls (suc k) n s h = elim (Option-cases (g.next n (g.act n s))) [
    | inl end ↦ rw (run, end) (run-none k (g.act n s))
    | inr (m, more) ↦
        rw (run, more)
          (run-ends rank falls k m (g.act n s) (omega (arith, falls n m (g.act n s) more)))
  ]

  -- From whatever is reached on the way, the run goes on to one and the same end.
  pub finish-Reach :
      (rank : Node → ℕ)
      → ((n m : Node) (s : S) → g.next n s ≡ some m → rank m < rank n)
      → (k : ℕ) (s : S) → rank g.start < k
      → (d : Config Node S) → Reach g (some g.start, s) d
      → Reach g d (none, finish g k s)
  unfolding finish
  finish-Reach rank falls k s h d r =
      let end : (run g k (some g.start, s)).0 ≡ none = run-ends rank falls k g.start s h in
      subst (λ n. Reach g d (n, (run g k (some g.start, s)).1)) end
        (Reach-ends (some g.start, s) d (run g k (some g.start, s)) r
          (run-Reach k (some g.start, s)) end)
