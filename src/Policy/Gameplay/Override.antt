-- ===== src/Policy/Gameplay/Override.antt =====
-- What decides the gameplay result: the strictest of all the verdicts on the effects.
use rin.Common.{
  ◌≡◌, refl, sym, ◌∙◌, ap, inl, inr, Bool, true, false, ◌||◌, List, [], ◌∷◌, ◌++◌, Option, none,
  some, arith, Bool-cases, Option-cases, if◌then◌else◌,
}
use rin.Host.{Effect, BoundAction}
use rin.Policy.{Verdict, allow, deny, require_confirmation, Rule, Config, Context}
use rin.Policy.Kernel.{EffectDecision, kernel_decision}
use rin.Policy.Profiles.{profile_decision}
use rin.Policy.Matching.{rule_matches}
use rin.Policy.Gameplay.{
  Selection, consider, rule_decision, consider_rules, consider_effect, consider_effects,
  initial_selection, evaluate_gameplay,
}

-- The stricter of two verdicts.
abbrev pub stricter : Verdict → Verdict → Verdict
stricter deny v = deny
stricter require_confirmation deny = deny
stricter require_confirmation _ = require_confirmation
stricter allow v = v

abbrev pub strictest : List EffectDecision → Verdict
strictest [] = allow
strictest (d ∷ ds) = stricter d.result (strictest ds)

-- The decisions of the rules that match an effect, in the order of the rules.
abbrev pub matching_rules : List Rule → Effect → BoundAction → Context → List EffectDecision
matching_rules [] effect action context = []
matching_rules (rule ∷ rules) effect action context =
    let rest = matching_rules rules effect action context in
    if rule_matches rule effect action context then rule_decision rule ∷ rest else rest

abbrev pub or_default : List EffectDecision → EffectDecision → List EffectDecision
or_default [] d = d ∷ []
or_default (x ∷ xs) d = x ∷ xs

abbrev pub verdicts_or_kernel : Option EffectDecision → List EffectDecision → List EffectDecision
verdicts_or_kernel (some kernel) ds = kernel ∷ []
verdicts_or_kernel none ds = ds

-- All that is decided about one effect: the kernel alone, or else the matching rules, or else the
-- default of the profile.
abbrev pub verdicts : Config → BoundAction → Context → Effect → List EffectDecision
verdicts config action context effect = verdicts_or_kernel (kernel_decision config effect) (
    or_default (matching_rules config.rules effect action context)
      (profile_decision config.profile effect))

abbrev pub all_verdicts : Config → BoundAction → Context → List Effect → List EffectDecision
all_verdicts config action context [] = []
all_verdicts config action context (effect ∷ effects) =
    verdicts config action context effect ++ all_verdicts config action context effects

stricter_assoc : (a b c : Verdict) → stricter (stricter a b) c ≡ stricter a (stricter b c)
stricter_assoc deny b c = refl
stricter_assoc require_confirmation deny c = refl
stricter_assoc require_confirmation require_confirmation deny = refl
stricter_assoc require_confirmation require_confirmation require_confirmation = refl
stricter_assoc require_confirmation require_confirmation allow = refl
stricter_assoc require_confirmation allow deny = refl
stricter_assoc require_confirmation allow require_confirmation = refl
stricter_assoc require_confirmation allow allow = refl
stricter_assoc allow b c = refl

pub strictest-append :
    (xs ys : List EffectDecision) → strictest (xs ++ ys) ≡ stricter (strictest xs) (strictest ys)
strictest-append [] ys = refl
strictest-append (x ∷ xs) ys =
    ap (stricter x.result) (strictest-append xs ys)
    ∙ sym (stricter_assoc x.result (strictest xs) (strictest ys))

-- Before the first decision the result is `allow`.
abbrev IsStarted : Selection → Type 0
IsStarted s = s.selected_reason ≡ false → s.result ≡ allow

consider_lem :
    (s : Selection) (d : EffectDecision)
    → IsStarted s
    → ((consider s d).result ≡ stricter s.result d.result) × IsStarted (consider s d)
unfolding consider
consider_lem s d h = ground arith

abbrev Folds : Selection → List EffectDecision → Selection → Type 0
Folds s ds t = (t.result ≡ stricter s.result (strictest ds)) × IsStarted t

Folds-trans :
    (s t u : Selection) (ds es : List EffectDecision)
    → Folds s ds t
    → Folds t es u
    → Folds s (ds ++ es) u
Folds-trans s t u ds es h k = (
  k.0
      ∙ ap (λ v. stricter v (strictest es)) h.0
      ∙ stricter_assoc s.result (strictest ds) (strictest es)
      ∙ ap (stricter s.result) (sym (strictest-append ds es)),
  k.1,
)

stricter_allow : (v : Verdict) → stricter v allow ≡ v
stricter_allow deny = refl
stricter_allow require_confirmation = refl
stricter_allow allow = refl

Folds-consider :
    (s : Selection) (d : EffectDecision) → IsStarted s → Folds s (d ∷ []) (consider s d)
Folds-consider s d h = (
  (consider_lem s d h).0 ∙ ap (stricter s.result) (sym (stricter_allow d.result)),
  (consider_lem s d h).1,
)

Folds-refl : (s : Selection) → IsStarted s → Folds s [] s
Folds-refl s h = (sym (stricter_allow s.result), h)

abbrev nonempty {ℓ} : {A : Type ℓ} → List A → Bool
nonempty [] = false
nonempty (x ∷ xs) = true

or_true : (b : Bool) → b || true ≡ true
or_true b = ground arith

or_false : (b : Bool) → b || false ≡ b
or_false b = ground arith

module _ (effect : Effect) (action : BoundAction) (context : Context) where
  consider_rules_lem :
      (rules : List Rule) (matched : Bool) (s : Selection)
      → IsStarted s
      → let out = consider_rules rules effect action context matched s in
        Folds s (matching_rules rules effect action context) out.1
        × (out.0 ≡ matched || nonempty (matching_rules rules effect action context))
  unfolding consider_rules
  consider_rules_lem [] matched s h = (Folds-refl s h, ground arith)
  consider_rules_lem (rule ∷ rules) matched s h =
      elim (Bool-cases (rule_matches rule effect action context)) [
        | inl hit ↦
            let d = rule_decision rule in
            let first = Folds-consider s d h in
            let rest = consider_rules_lem rules (matched || true) (consider s d) first.1 in
            rw (hit, consider_rules)
              (
                Folds-trans s (consider s d)
                    (consider_rules rules effect action context (matched || true) (consider s d)).1
                    (d ∷ []) (matching_rules rules effect action context) first rest.0,
                rest.1 ∙ ground (arith, or_true matched),
              )
        | inr miss ↦
            let rest = consider_rules_lem rules (matched || false) s h in
            rw (miss, consider_rules) (rest.0, rest.1 ∙ ground (arith, or_false matched))
      ]

-- The end of the loop over the rules: the default is taken only where no rule matched.
Folds-default :
    (s t : Selection) (ds : List EffectDecision) (fallback : EffectDecision) (matched : Bool)
    → Folds s ds t
    → matched ≡ nonempty ds
    → Folds s (or_default ds fallback) (if matched then t else consider t fallback)
Folds-default s t [] fallback true h e = cc
Folds-default s t [] fallback false h e =
    Folds-trans s t (consider t fallback) [] (fallback ∷ []) h (Folds-consider t fallback h.1)
Folds-default s t (d ∷ ds) fallback true h e = h
Folds-default s t (d ∷ ds) fallback false h e = cc

module _ (config : Config) (action : BoundAction) (context : Context) where
  consider_effect_lem :
      (effect : Effect) (s : Selection)
      → IsStarted s
      → Folds s
          (verdicts config action context effect)
          (consider_effect config action context effect s)
  unfolding consider_effect
  consider_effect_lem effect s h = elim (Option-cases (kernel_decision config effect)) [
    | inl e ↦
        let loop = consider_rules_lem effect action context config.rules false s h in
        rw (e, consider_effect)
          (Folds-default s (consider_rules config.rules effect action context false s).1
            (matching_rules config.rules effect action context)
            (profile_decision config.profile effect)
            (consider_rules config.rules effect action context false s).0 loop.0 loop.1)
    | inr (d, e) ↦ rw (e, consider_effect) (Folds-consider s d h)
  ]

  consider_effects_lem :
      (effects : List Effect) (s : Selection)
      → IsStarted s
      → Folds s
          (all_verdicts config action context effects)
          (consider_effects config action context effects s)
  unfolding consider_effects
  consider_effects_lem [] s h = Folds-refl s h
  consider_effects_lem (effect ∷ effects) s h =
      let t = consider_effect config action context effect s in
      let first = consider_effect_lem effect s h in
      Folds-trans s t (consider_effects config action context effects t)
        (verdicts config action context effect) (all_verdicts config action context effects) first
        (consider_effects_lem effects t first.1)

  -- The gameplay result is the strictest of the verdicts on the effects: of the safety kernel's
  -- where it speaks, else of every rule that matches, else of the profile's default.
  pub evaluate_gameplay-strictest :
      (evaluate_gameplay config action context).result
      ≡ strictest (all_verdicts config action context action.effects)
  unfolding evaluate_gameplay
  evaluate_gameplay-strictest =
      (consider_effects_lem action.effects initial_selection (λ e. refl)).0
