-- ===== src/Ingestor/Recovery/Follows.antt =====
-- Which request of recovery.py may follow which answer.
use live_forex_volatility_tr.Base.{
  ◌≡◌, sym, true, false, Option, none, some, List, [], ◌∷◌, arith, inl, inr, Bool-cases, All, any,
  subst,
}
use live_forex_volatility_tr.Base.Text.{Text, eq_text, eq_text→eq}
use live_forex_volatility_tr.Ingestor.Recovery.Requests.{Request}
use live_forex_volatility_tr.Ingestor.Recovery.Report.{
  ProviderError, auth_error, rate_limit_error, entitlement_error, other_error,
}

abbrev pub Asked : Type 0
Asked = Request × Option ProviderError

-- A request may follow an earlier one that was answered so.
abbrev pub MayFollow : Request → Asked → Type 0
MayFollow next (r, none) = Unit
MayFollow next (r, some other_error) = Unit
MayFollow next (r, some entitlement_error) = eq_text next.symbol r.symbol ≡ false
MayFollow next (r, some auth_error) = ⊥
MayFollow next (r, some (rate_limit_error retry_after)) = ⊥

-- Each request may follow all those before it; the newest comes first.
abbrev pub Obeys : List Asked → Type 0
Obeys [] = Unit
Obeys (a ∷ asked) = All (MayFollow a.0) asked × Obeys asked

-- The run goes on after it, and remembers a pair that was refused.
abbrev pub Passed : List Text → Asked → Type 0
Passed refused (r, none) = Unit
Passed refused (r, some other_error) = Unit
Passed refused (r, some entitlement_error) = any (eq_text r.symbol) refused ≡ true
Passed refused (r, some auth_error) = ⊥
Passed refused (r, some (rate_limit_error retry_after)) = ⊥

any-same :
    (symbol next : Text) (refused : List Text)
    → any (eq_text symbol) refused ≡ true
    → any (eq_text next) refused ≡ false
    → eq_text next symbol ≡ false
any-same symbol next refused h k = elim (Bool-cases (eq_text next symbol)) [
  | inr e ↦ e
  | inl e ↦
      let same = eq_text→eq next symbol e in
      let known : any (eq_text next) refused ≡ true =
        subst (λ s. any (eq_text s) refused ≡ true) (sym same) h in
      cc
]

pub Passed-MayFollow :
    (next : Request) (refused : List Text) (a : Asked)
    → any (eq_text next.symbol) refused ≡ false
    → Passed refused a
    → MayFollow next a
Passed-MayFollow next refused (r, none) h p = tt
Passed-MayFollow next refused (r, some other_error) h p = tt
Passed-MayFollow next refused (r, some entitlement_error) h p =
    any-same r.symbol next.symbol refused p h
Passed-MayFollow next refused (r, some auth_error) h p = p
Passed-MayFollow next refused (r, some (rate_limit_error retry_after)) h p = p

pub Passed-more :
    (symbol : Text) (refused : List Text) (a : Asked)
    → Passed refused a
    → Passed (symbol ∷ refused) a
Passed-more symbol refused (r, none) p = tt
Passed-more symbol refused (r, some other_error) p = tt
Passed-more symbol refused (r, some entitlement_error) p = ground arith
Passed-more symbol refused (r, some auth_error) p = p
Passed-more symbol refused (r, some (rate_limit_error retry_after)) p = p
