-- ===== src/DependencyEnv/Plan.antt =====
-- The ports that a plan hands out, and the variables that it leaves alone.
use cognivox_record.Prelude.{
  ℕ, zero, suc, ◌+◌, ◌≡◌, refl, sym, ◌∙◌, ap, Bool, true, false, not, ◌||◌, List, [], ◌∷◌, ◌++◌,
  Option, none, some, arith, length, length-append, if◌then◌else◌,
}
use cognivox_record.Text.Utf8.{Text, codes}
use cognivox_record.Text.Decimal.{print_nat}
use cognivox_record.Text.Words.{equal}
use cognivox_record.Dict.{Dict, get, get-put}
use cognivox_record.DependencyEnv.{
  Url, variable_protocols, RedirectedDependency, RedirectPlan, protocol_of, redirect, parsed,
  is_known, plan_entry, plan_from, plan_redirects,
}

-- The local ports of a list of dependencies, and the variables that it redirects.
abbrev pub local_ports : List RedirectedDependency → List ℕ
local_ports [] = []
local_ports (d ∷ ds) = d.local_port ∷ local_ports ds

abbrev pub redirects : Text → List RedirectedDependency → Bool
redirects v [] = false
redirects v (d ∷ ds) = equal d.variable v || redirects v ds

abbrev pub count_from : ℕ → ℕ → List ℕ
count_from n zero = []
count_from n (suc k) = n ∷ count_from (suc n) k

local_ports-append :
    (ds es : List RedirectedDependency) → local_ports (ds ++ es) ≡ local_ports ds ++ local_ports es
local_ports-append [] es = refl
local_ports-append (d ∷ ds) es = ap (◌∷◌ d.local_port) (local_ports-append ds es)

count_from-concat : (n k : ℕ) → count_from n (suc k) ≡ count_from n k ++ ((n + k) ∷ [])
count_from-concat n zero = ap (◌∷ []) (omega arith)
count_from-concat n (suc k) =
    let e : suc n + k ≡ n + suc k = omega arith in
    ap (◌∷◌ n) (count_from-concat (suc n) k ∙ ap (λ m. count_from (suc n) k ++ (m ∷ [])) e)

or_assoc : (a b c : Bool) → (a || (b || c)) ≡ ((a || b) || c)
or_assoc true b c = refl
or_assoc false b c = refl

redirects-append :
    (v : Text) (ds es : List RedirectedDependency)
    → redirects v (ds ++ es) ≡ (redirects v ds || redirects v es)
redirects-append v [] es = refl
redirects-append v (d ∷ ds) es =
    ap (λ b. equal d.variable v || b) (redirects-append v ds es) ∙ or_assoc (equal d.variable v) _ _

-- What holds of the plan throughout the loop.
record IsPlan (base : Dict Text) (base_port : ℕ) (p : RedirectPlan) : Type 0 where
  ports : local_ports p.dependencies ≡ count_from base_port (length p.dependencies)
  next : p.next_port ≡ base_port + length p.dependencies
  kept : (v : Text) → redirects v p.dependencies ≡ false → get v p.env ≡ get v base

redirects-concat :
    (v : Text) (ds : List RedirectedDependency) (d : RedirectedDependency)
    → redirects v (ds ++ (d ∷ [])) ≡ false
    → (redirects v ds ≡ false) × (equal d.variable v ≡ false)
redirects-concat v ds d h =
    or_false (redirects v ds) (equal d.variable v) (sym (redirects-append v ds (d ∷ [])) ∙ h)
  where
    or_false : (a b : Bool) → (a || (b || false)) ≡ false → (a ≡ false) × (b ≡ false)
    or_false true b h = cc
    or_false false true h = cc
    or_false false false h = (refl, refl)

redirect-IsPlan :
    (base : Dict Text) (base_port : ℕ) (p : RedirectPlan) (variable : Text) (url : Url)
    (o : Option Text)
    → IsPlan base base_port p
    → IsPlan base base_port (redirect p variable url o)
unfolding redirect
redirect-IsPlan base base_port p variable url none h = record {
  ports = h.ports;
  next = h.next;
  kept = h.kept;
}
redirect-IsPlan base base_port p variable url (some protocol) h = record {
  ports =
      local_ports-append p.dependencies _
      ∙ ap (λ l. l ++ (p.next_port ∷ [])) h.ports
      ∙ ap (λ n. count_from base_port (length p.dependencies) ++ (n ∷ [])) h.next
      ∙ sym (count_from-concat base_port (length p.dependencies))
      ∙ ap (count_from base_port) (sym (length-concat p.dependencies _));
  next = omega (arith, h.next, length-concat p.dependencies _);
  kept = λ v e.
      let (before, other) = redirects-concat v p.dependencies _ e in
      get-put variable v _ p.env
      ∙ ap
          (λ b.
            if b
            then some (url.redirected (codes "127.0.0.1") (print_nat p.next_port))
            else get v p.env)
          other
      ∙ h.kept v before;
}
  where
    length-concat :
        (ds : List RedirectedDependency) (d : RedirectedDependency)
        → length (ds ++ (d ∷ [])) ≡ suc (length ds)
    length-concat ds d = omega (arith, length-append ds (d ∷ []))

parsed-IsPlan :
    (base : Dict Text) (base_port : ℕ) (p : RedirectPlan) (variable : Text) (o : Option Url)
    → IsPlan base base_port p
    → IsPlan base base_port (parsed p variable o)
unfolding parsed
parsed-IsPlan base base_port p variable none h = record {
  ports = h.ports;
  next = h.next;
  kept = h.kept;
}
parsed-IsPlan base base_port p variable (some url) h =
    redirect-IsPlan base base_port p variable url (protocol_of variable url) h

if-IsPlan :
    (base : Dict Text) (base_port : ℕ) (b : Bool) (p q : RedirectPlan)
    → IsPlan base base_port p
    → IsPlan base base_port q
    → IsPlan base base_port (if b then p else q)
if-IsPlan base base_port true p q h k = h
if-IsPlan base base_port false p q h k = k

module _ (parse : Text → Option Url) (base : Dict Text) (base_port : ℕ) where
  plan_entry-IsPlan :
      (p : RedirectPlan) (variable value : Text)
      → IsPlan base base_port p
      → IsPlan base base_port (plan_entry parse p variable value)
  unfolding plan_entry
  plan_entry-IsPlan p variable value h =
      if-IsPlan base base_port (equal value [] || not (is_known (get variable variable_protocols)))
        p (parsed p variable (parse value)) h
        (parsed-IsPlan base base_port p variable (parse value) h)

  plan_from-IsPlan :
      (p : RedirectPlan) (rest : Dict Text)
      → IsPlan base base_port p
      → IsPlan base base_port (plan_from parse p rest)
  unfolding plan_from
  plan_from-IsPlan p [] h = h
  plan_from-IsPlan p ((variable, value) ∷ rest) h =
      plan_from-IsPlan (plan_entry parse p variable value) rest
        (plan_entry-IsPlan p variable value h)

  plan_redirects-IsPlan : IsPlan base base_port (plan_redirects parse base base_port)
  unfolding plan_redirects
  plan_redirects-IsPlan =
      plan_from-IsPlan
        (record { env = base; dependencies = []; unparsed = []; next_port = base_port }) base
        (record { ports = refl; next = omega arith; kept = λ v h. refl })

  -- Whatever the environment holds and whatever the URL parser answers: the dependencies get the
  -- ports from `base_port` on, one each and in order, so no two share a listener.
  pub plan_redirects-ports :
      let ds = (plan_redirects parse base base_port).dependencies in
      local_ports ds ≡ count_from base_port (length ds)
  plan_redirects-ports = plan_redirects-IsPlan.ports

  -- A variable that no dependency names keeps in the new environment the value that it had.
  pub plan_redirects-kept :
      (v : Text)
      → redirects v (plan_redirects parse base base_port).dependencies ≡ false
      → get v (plan_redirects parse base base_port).env ≡ get v base
  plan_redirects-kept = plan_redirects-IsPlan.kept
