-- ===== src/Redirect/Iptables.antt =====
-- pkg/redirect/iptables.go, over an iptables implementation for each address family.
pub mod Cleanup
pub mod Prereqs
pub mod Lawful
use mathlib.Core.Option as option
use lightpath.Prelude.{
  String, Bool, true, false, ◌&&◌, not, Option, none, some, List, [], ◌∷◌, if◌then◌else◌,
}
use lightpath.Prelude.Int.{ℤ}
use lightpath.Prelude.Decimal.{sprint}
use lightpath.Redirect.{Net, Redirect}

pub data RulePosition : Type 0 where
  prepend append : RulePosition

-- `iptables.Interface` (k8s.io/kubernetes/pkg/util/iptables) over the state of the kernel's tables;
-- the flags that `EnsureChain` and `EnsureRule` return are dropped by the code.
pub record Iptables : Type 1 where
  pub State : Type 0
  pub Error : Type 0
  pub ensure_chain : String → String → State → State × Option Error
  pub ensure_rule : RulePosition → String → String → List String → State → State × Option Error
  pub delete_rule : String → String → List String → State → State × Option Error
  pub delete_chain : String → String → State → State × Option Error
  -- `IsNotFoundError` of an error that is not nil.
  pub is_not_found_error : Error → Bool

-- `iptables.TableNAT`, `iptables.ChainPrerouting` and `iptables.ChainOutput`.
abbrev pub table_nat : String
table_nat = "nat"

abbrev pub chain_prerouting : String
chain_prerouting = "PREROUTING"

abbrev pub chain_output : String
chain_output = "OUTPUT"

abbrev pub lightpath_chain_name : String
lightpath_chain_name = "LIGHTPATH-SVC-REDIRECT"

abbrev pub jump_chain_args : List String
jump_chain_args =
    "-m" ∷ "comment" ∷ "--comment" ∷ "lightpath prerouting rules" ∷ "-j" ∷ lightpath_chain_name ∷ []

module _ (T : Iptables) where
  -- The tables of the two families. The mutex makes each call one step.
  pub record Tables : Type 0 where
    pub iptables : T.State
    pub ip6tables : T.State

  -- A command on one of the two tables.
  abbrev pub Command : Type 0
  Command = T.State → T.State × Option T.Error

  abbrev pub on_v4 : Command → Tables → Tables × Option T.Error
  on_v4 f s = let (t, err) = f s.iptables in (record s { iptables = t }, err)

  abbrev pub on_v6 : Command → Tables → Tables × Option T.Error
  on_v6 f s = let (t, err) = f s.ip6tables in (record s { ip6tables = t }, err)

  -- `if err != nil { return err }` before what follows.
  abbrev pub or_return :
      (Tables × Option T.Error) → (Tables → Tables × Option T.Error) → Tables × Option T.Error
  or_return (s, none) next = next s
  or_return (s, some e) next = (s, some e)

  unfoldable pub prereqs : Tables → Tables × Option T.Error
  prereqs s = or_return (on_v4 (T.ensure_chain table_nat lightpath_chain_name) s) λ s₁.
      or_return (on_v6 (T.ensure_chain table_nat lightpath_chain_name) s₁) λ s₂.
        or_return (on_v4 (T.ensure_rule prepend table_nat chain_prerouting jump_chain_args) s₂)
          λ s₃.
            or_return (on_v4 (T.ensure_rule prepend table_nat chain_output jump_chain_args) s₃)
              λ s₄.
                or_return
                  (on_v6 (T.ensure_rule prepend table_nat chain_prerouting jump_chain_args) s₄)
                  λ s₅.
                    or_return
                      (on_v6 (T.ensure_rule prepend table_nat chain_output jump_chain_args) s₅)
                      λ s₆. (s₆, none)

  -- `err != nil && iptables.IsNotFoundError(err)`: the error replaces the last one.
  abbrev pub last_error : Option T.Error → Option T.Error → Option T.Error
  last_error last none = last
  last_error last (some e) = if T.is_not_found_error e then some e else last

  -- One deletion of the cleanup, which goes on whatever it returns.
  abbrev pub clean :
      (Tables → Tables × Option T.Error) → Tables × Option T.Error → Tables × Option T.Error
  clean f (s, last) = let (t, err) = f s in (t, last_error last err)

  clean_all :
      List (Tables → Tables × Option T.Error) → Tables × Option T.Error → Tables × Option T.Error
  clean_all [] r = r
  clean_all (f ∷ rest) r = clean_all rest (clean f r)

  abbrev pub cleanup_steps : List (Tables → Tables × Option T.Error)
  cleanup_steps =
      on_v4 (T.delete_rule table_nat chain_prerouting jump_chain_args)
      ∷ on_v4 (T.delete_rule table_nat chain_output jump_chain_args)
      ∷ on_v6 (T.delete_rule table_nat chain_prerouting jump_chain_args)
      ∷ on_v6 (T.delete_rule table_nat chain_output jump_chain_args)
      ∷ on_v4 (T.delete_chain table_nat lightpath_chain_name)
      ∷ on_v6 (T.delete_chain table_nat lightpath_chain_name)
      ∷ []

  unfoldable pub cleanup : Tables → Tables × Option T.Error
  unfolding clean_all
  cleanup s = clean_all cleanup_steps (s, none)

  -- `if iptables.IsNotFoundError(err) { return nil }; return err`, without a test for nil:
  -- `IsNotFoundError` reads `err.Error()`, which panics where `err` is nil.
  abbrev pub forget_not_found : Option T.Error → Option (Option T.Error)
  forget_not_found none = none
  forget_not_found (some e) = if T.is_not_found_error e then some none else some (some e)

  module _ (N : Net) (envoy_port : ℤ) where
    unfoldable pub redir_args : String → N.Ip → List String
    redir_args comment ip =
        "-m"
        ∷ "comment"
        ∷ "--comment"
        ∷ comment
        ∷ "-d"
        ∷ N.ip_string ip
        ∷ "-p"
        ∷ "tcp"
        ∷ "-j"
        ∷ "REDIRECT"
        ∷ "--to-port"
        ∷ sprint envoy_port
        ∷ []

    unfoldable pub add_ip : String → N.Ip → Tables → Tables × Option T.Error
    add_ip comment ip s =
        let redirect_args = redir_args comment ip in
        if N.is_v4 ip
        then on_v4 (T.ensure_rule append table_nat lightpath_chain_name redirect_args) s
        else on_v6 (T.ensure_rule append table_nat lightpath_chain_name redirect_args) s

    -- `none` is the panic.
    unfoldable pub remove_ip : String → N.Ip → Tables → Option (Tables × Option T.Error)
    remove_ip comment ip s =
        let redirect_args = redir_args comment ip in
        let (t, err) =
          if N.is_v4 ip
          then on_v4 (T.delete_rule table_nat lightpath_chain_name redirect_args) s
          else on_v6 (T.delete_rule table_nat lightpath_chain_name redirect_args) s in
        option.map (λ returned. (t, returned)) (forget_not_found err)

    -- The struct as an implementation of the interface.
    abbrev pub iptables_redirect : Redirect N
    iptables_redirect = record {
      State = Tables;
      Error = T.Error;
      prereqs = prereqs;
      add_ip = add_ip;
      remove_ip = remove_ip;
      cleanup = cleanup;
    }
