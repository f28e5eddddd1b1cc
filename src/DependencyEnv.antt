-- ===== src/DependencyEnv.antt =====
-- src/record/dependencyEnv.ts: the connection strings of an environment are pointed at local proxies.
-- The platform's URL class is a parameter: `parse` is `new URL(text)`, and `none` where it throws.
pub mod Plan
use mathlib.Core.Option
use cognivox_record.Prelude.{
  ℕ, zero, suc, ◌+◌, ◌≡◌, refl, sym, ◌∙◌, ap, subst, Bool, true, false, not, ◌||◌, ◌&&◌, List, [],
  ◌∷◌, ◌++◌, Option, none, some, arith, length, length-append, append-nil, append_assoc, ◌==◌,
  if◌then◌else◌, Bool-cases, Option-cases, inl, inr,
}
use cognivox_record.Prelude.Int.{ℤ, pos, negsuc}
use cognivox_record.Text.Utf8.{Text, codes}
use cognivox_record.Text.Decimal.{print_nat, parse_int}
use cognivox_record.Text.Words.{equal, equal→eq, equal_refl}
use cognivox_record.Dict.{Dict, get, put, get-put}

-- What the code reads of a URL, and `redirected host port`, its text when host and port are set.
pub record Url : Type 0 where
  pub protocol : Text
  pub hostname : Text
  pub port : Text
  pub sslmode : Option Text
  pub redirected : Text → Text → Text

abbrev pub variable_protocols : Dict Text
variable_protocols =
    (codes "DATABASE_URL", codes "postgres")
    ∷ (codes "POSTGRES_URL", codes "postgres")
    ∷ (codes "POSTGRESQL_URL", codes "postgres")
    ∷ (codes "PG_URL", codes "postgres")
    ∷ (codes "REDIS_URL", codes "redis")
    ∷ (codes "REDIS_URI", codes "redis")
    ∷ (codes "CACHE_URL", codes "redis")
    ∷ (codes "MONGO_URL", codes "mongodb")
    ∷ (codes "MONGODB_URI", codes "mongodb")
    ∷ (codes "MONGODB_URL", codes "mongodb")
    ∷ []

abbrev pub scheme_protocols : Dict Text
scheme_protocols =
    (codes "postgres:", codes "postgres")
    ∷ (codes "postgresql:", codes "postgres")
    ∷ (codes "redis:", codes "redis")
    ∷ (codes "rediss:", codes "redis")
    ∷ (codes "mongodb:", codes "mongodb")
    ∷ []

abbrev pub default_ports : Dict ℕ
default_ports = (codes "postgres", 5432) ∷ (codes "redis", 6379) ∷ (codes "mongodb", 27017) ∷ []

pub record RedirectedDependency : Type 0 where
  pub variable : Text
  pub protocol : Text
  pub upstream_host : Text
  pub upstream_port : ℕ
  pub local_port : ℕ
  pub encrypted : Bool

-- The result, with the port that is handed out next.
pub record RedirectPlan : Type 0 where
  pub env : Dict Text
  pub dependencies : List RedirectedDependency
  pub unparsed : List Text
  pub next_port : ℕ

first_of : Option Text → Option Text → Option Text
first_of none o = o
first_of (some t) o = some t

unfoldable pub protocol_of : Text → Url → Option Text
unfolding first_of
protocol_of variable url =
    first_of (get url.protocol scheme_protocols) (get variable variable_protocols)

-- `Number(url.port)`, where NaN counts as 0 in what follows.
port_number : Option ℤ → ℕ
port_number (some (pos n)) = n
port_number _ = 0

upstream_port : Url → Text → ℕ
upstream_port url protocol =
    let n = port_number (parse_int url.port) in
    if n == 0 then Option.get_or (get protocol default_ports) 0 else n

is_required : Option Text → Bool
is_required none = false
is_required (some t) = equal t (codes "require")

unfoldable pub redirect : RedirectPlan → Text → Url → Option Text → RedirectPlan
unfolding upstream_port port_number is_required
redirect p variable url none = record p { unparsed = p.unparsed ++ (variable ∷ []) }
redirect p variable url (some protocol) = record {
  env = put variable (url.redirected (codes "127.0.0.1") (print_nat p.next_port)) p.env;
  dependencies =
      p.dependencies
      ++ (record {
        variable = variable;
        protocol = protocol;
        upstream_host = url.hostname;
        upstream_port = upstream_port url protocol;
        local_port = p.next_port;
        encrypted = equal url.protocol (codes "rediss:") || is_required url.sslmode;
      }
          ∷ []);
  unparsed = p.unparsed;
  next_port = suc p.next_port;
}

parsed : RedirectPlan → Text → Option Url → RedirectPlan
parsed p variable none = record p { unparsed = p.unparsed ++ (variable ∷ []) }
parsed p variable (some url) = redirect p variable url (protocol_of variable url)

is_known : Option Text → Bool
is_known none = false
is_known (some t) = true

module _ (parse : Text → Option Url) where
  -- One round of the loop.
  unfoldable pub plan_entry : RedirectPlan → Text → Text → RedirectPlan
  unfolding is_known parsed
  plan_entry p variable value =
      if equal value [] || not (is_known (get variable variable_protocols))
      then p
      else parsed p variable (parse value)

  plan_from : RedirectPlan → Dict Text → RedirectPlan
  plan_from p [] = p
  plan_from p ((variable, value) ∷ rest) = plan_from (plan_entry p variable value) rest

  unfoldable pub plan_redirects : Dict Text → ℕ → RedirectPlan
  unfolding plan_from plan_entry
  plan_redirects base base_port =
      plan_from (record { env = base; dependencies = []; unparsed = []; next_port = base_port })
        base
