-- ===== src/Tests/Redirect.antt =====
-- pkg/redirect over tables that are functions, and addresses that are texts.
mod Daemons
mod Interrupts
use mathlib.Core.List.{Perm}
use mathlib.Core.Option as option
use mathlib.Core.Option.{some-injective}
use text.Mathlib.TextEquality.{eq_iff}
use lightpath.Prelude.{
  ◌≡◌, refl, sym, String, Bool, true, false, not, ◌&&◌, ◌||◌, none, some, List, [], ◌∷◌, ◌==◌,
  string_eq, if◌then◌else◌, arith,
}
use lightpath.Prelude.Int.{pos}
use lightpath.Prelude.MapRange.{in_order}
use lightpath.Kube.{Service}
use lightpath.Redirect.{Net, Redirect, IsLawful}
use lightpath.Redirect.Diff.{svc_ip_diff, svc_ip_diff_lem}
use lightpath.Redirect.Handler.{get_comment, add_func, update_func, delete_func}
use lightpath.Redirect.Handler.Rules.{IsCanonical, has-update_func}
use lightpath.Redirect.Iptables.{
  RulePosition, Iptables, Tables, prereqs, cleanup, redir_args, iptables_redirect,
}
use lightpath.Redirect.Iptables.Lawful.{
  same_place, IsReliable, has_redirect, iptables_redirect-IsLawful,
}
use lightpath.Redirect.Iptables.Prereqs.{JumpsFrom, prereqs-JumpsFrom}
use lightpath.Redirect.Iptables.Cleanup.{NoJumps, cleanup_only_not_found, cleanup-NoJumps}

-- One address has a second spelling.
abbrev text_net : Net
text_net = record {
  Ip = String;
  parse_ip = λ t. if t == "::01" then "::1" else t;
  ip_string = λ i. i;
  is_v4 = λ i. not (i == "::1");
  ip_string_inj = λ i j e. e;
}

-- A chain that has rules is not deleted.
abbrev tables : Iptables
tables = record {
  State = String → String → List String → Bool;
  Error = Bool;
  ensure_chain = λ t c s. (s, none);
  ensure_rule = λ p t c a s. ((λ t' c' a'. same_place t' c' a' t c a || s t' c' a'), none);
  delete_rule = λ t c a s. ((λ t' c' a'. not (same_place t' c' a' t c a) && s t' c' a'), none);
  delete_chain = λ t c s. (s, some false);
  is_not_found_error = λ e. e;
}

abbrev tables-IsReliable : IsReliable tables
tables-IsReliable = record {
  holds = λ s t c a. s t c a;
  holds-ensure_rule = λ p t c a t' c' a' s. refl;
  holds-delete_rule = λ t c a t' c' a' s. refl;
  holds-ensure_chain = λ t c t' c' a' s. refl;
  holds-delete_chain = λ t c t' c' a' s h. refl;
  ensure_chain_succeeds = λ t c s. refl;
  ensure_rule_succeeds = λ p t c a s. refl;
  delete_rule_succeeds = λ t c a s. refl;
  has_chain = λ s t c. true;
  has_chain-ensure_chain = λ t c s. refl;
  has_chain-ensure_rule = λ p t c a t' c' s. refl;
  has_chain-delete_rule = λ t c a t' c' s. refl;
  delete_chain_fails = λ t c s e there h. sym (some-injective false e h);
}

-- Every deletion says that there is nothing to delete.
abbrev bare_tables : Iptables
bare_tables = record {
  State = Unit {0};
  Error = Bool;
  ensure_chain = λ t c s. (s, none);
  ensure_rule = λ p t c a s. (s, none);
  delete_rule = λ t c a s. (s, some true);
  delete_chain = λ t c s. (s, some true);
  is_not_found_error = λ e. e;
}

abbrev empty : Tables tables
empty = record { iptables = λ t c a. false; ip6tables = λ t c a. false }

abbrev redirect : Redirect text_net
redirect = iptables_redirect tables text_net (pos 1666)

abbrev has : Tables tables → String → String → Bool
has = has_redirect tables tables-IsReliable text_net (pos 1666)

redirect-IsLawful : IsLawful text_net redirect has
redirect-IsLawful = iptables_redirect-IsLawful tables tables-IsReliable text_net (pos 1666)

abbrev service_at : List String → Service
service_at ips = record {
  object_meta = record {
    name = "web";
    namespace = "shop";
    resource_version = "1";
    labels = [];
    annotations = [];
  };
  spec = record {
    ports = [];
    cluster_ips = ips;
    external_ips = [];
    ip_families = [];
    service_type = "ClusterIP";
  };
}

iptables_redirect-IsLawful_example : IsLawful text_net redirect has
iptables_redirect-IsLawful_example =
    iptables_redirect-IsLawful tables tables-IsReliable text_net (pos 1666)

svc_ip_diff_lem_example :
    ((svc_ip_diff text_net in_order (service_at ("10.0.0.1" ∷ [])) (service_at ("10.0.0.2" ∷ []))).0
      ≡ "10.0.0.2" ∷ [])
    × Perm
        ("10.0.0.1" ∷ [])
        (svc_ip_diff text_net in_order
          (service_at ("10.0.0.1" ∷ []))
          (service_at ("10.0.0.2" ∷ []))).1
unfolding string_eq
svc_ip_diff_lem_example =
    svc_ip_diff_lem text_net in_order (service_at ("10.0.0.1" ∷ [])) (service_at ("10.0.0.2" ∷ []))

abbrev web_comment : String
web_comment = "lightpath:shop/web"

first-IsCanonical : IsCanonical text_net ("10.0.0.1" ∷ [])
first-IsCanonical t m = ground (arith, eq_iff "::01" "10.0.0.1")

second-IsCanonical : IsCanonical text_net ("10.0.0.1" ∷ "10.0.0.2" ∷ [])
second-IsCanonical t m = ground (arith, eq_iff "::01" "10.0.0.1", eq_iff "::01" "10.0.0.2")

abbrev at_one : Tables tables
at_one = record empty {
  iptables =
      (tables.ensure_rule RulePosition.append "nat" "LIGHTPATH-SVC-REDIRECT"
        (redir_args tables text_net (pos 1666) web_comment "10.0.0.1") empty.iptables).0;
}

has-update_func_example :
    option.map
      (λ t. has t web_comment "10.0.0.2")
      (update_func text_net redirect in_order
        (service_at ("10.0.0.1" ∷ []))
        (service_at ("10.0.0.1" ∷ "10.0.0.2" ∷ []))
        at_one)
    ≡ some true
unfolding string_eq get_comment redir_args
has-update_func_example =
    has-update_func text_net redirect has redirect-IsLawful in_order (service_at ("10.0.0.1" ∷ []))
      (service_at ("10.0.0.1" ∷ "10.0.0.2" ∷ [])) web_comment "10.0.0.2" at_one first-IsCanonical
      second-IsCanonical refl

cleanup_only_not_found_example : bare_tables.is_not_found_error true ≡ true
unfolding cleanup
cleanup_only_not_found_example =
    cleanup_only_not_found bare_tables (record { iptables = tt; ip6tables = tt }) true refl
