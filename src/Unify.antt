-- ===== src/Unify.antt =====
-- typecheck.c, unification: `_UnifyImpl` with the reports of its failures. The C code goes on
-- after a failure; what it then unifies does not depend on the failure.
mod Tests
pub mod Same
pub mod Variables
pub mod Components
pub mod Trees
pub mod Agree
pub mod Sound
use Prim.Native.String.{String, ◌++◌ as ◌&◌}
use millie.Prelude.{
  ℕ, zero, suc, ◌+◌, Bool, true, false, ◌||◌, List, Option, none, some, get_elem?, ◌==◌,
  if◌then◌else◌,
}
use millie.Errors.{add_error}
use millie.Token.{MillieToken}
use millie.Ast.{Expression, start_token, end_token}
use millie.Types.{
  Address, Slot, null, to, text, TypeExp, TypeExpType, typeexp_variable, same_kind, Check, pure,
  stop, bad_pointer, endless, load, store, is_error_type, done, ◌>>=◌, ◌>>◌,
}
use millie.Types.Walk.{prune, is_type_contained_within}
use millie.Types.Format.{format_type_expression}

-- `GetToken`, which reads the array without a look at its length.
unfoldable pub fetch_token : List MillieToken → ℕ → Check MillieToken
fetch_token tokens pos = elim (get_elem? tokens pos) [
  | some token ↦ pure token
  | none ↦ stop bad_pointer
]

-- `context->tokens` is an argument, `context->errors` is a part of the world.
unfoldable pub report_type_error : List MillieToken → Expression → String → Check (Unit {0})
unfolding fetch_token
report_type_error tokens node error_message = do
  start ← fetch_token tokens (start_token node)
  last ← fetch_token tokens (end_token node)
  λ w. done (
    tt,
    record w { errors = add_error w.errors start.start (last.start + last.length) error_message },
  )

pub data UnificationError : Type 0 where
  unify_self_recursive unify_invalid_function_apply : UnificationError
  unify_inconsistent_recursion unify_if_condition_boolean : UnificationError
  unify_if_branches_same unify_no_valid_binary_operator : UnificationError

-- `struct UnifyContext`, but for the check context.
pub record UnifyContext : Type 0 where
  pub expression : Expression
  pub error_code : UnificationError
  pub original_one : Address
  pub original_two : Address

-- The message for an error, from the texts of the two types.
abbrev pub unification_message : UnificationError → String → String → String
unification_message unify_self_recursive arg_one arg_two =
    "unsupported recursive type: the type \"" & arg_one & "\" is contained within the type \""
    & arg_two & "\""
unification_message unify_invalid_function_apply arg_one arg_two =
    "the function of type \"" & arg_two & "\" cannot be used as a function of type \"" & arg_one
    & "\"; either the argument or return type is incompatible"
unification_message unify_inconsistent_recursion arg_one arg_two =
    "inconsistent recursive definition: unable to reconcile the two necessary types \"" & arg_one
    & "\" and \"" & arg_two & "\""
unification_message unify_if_condition_boolean arg_one arg_two =
    "condition of an if expression must be a boolean (not \"" & arg_one & "\")"
unification_message unify_if_branches_same arg_one arg_two =
    "then branch returns \"" & arg_one & "\" and else branch returns \"" & arg_two
    & "\"; both branches of the condition must have the same type"
unification_message unify_no_valid_binary_operator arg_one arg_two =
    "no operator takes types \"" & arg_one & "\" and \"" & arg_two & "\""

-- The texts that an error's message takes: only the first type's for a condition of an `if`.
unfoldable pub failure_message : ℕ → UnificationError → Address → Address → Check String
failure_message n unify_if_condition_boolean one two = do
  arg_one ← format_type_expression n one
  pure (unification_message unify_if_condition_boolean arg_one "")
failure_message n error_code one two = do
  arg_one ← format_type_expression n one
  arg_two ← format_type_expression n two
  pure (unification_message error_code arg_one arg_two)

unfoldable pub report_unification_failure : ℕ → List MillieToken → UnifyContext → Check (Unit {0})
unfolding failure_message report_type_error
report_unification_failure n tokens context = do
  message ← failure_message n context.error_code context.original_one context.original_two
  report_type_error tokens context.expression message

-- The branch for a variable, which is `type_one` here.
unfoldable pub unify_variable :
    ℕ → List MillieToken → UnifyContext → Address → TypeExp → Address → Check UnifyContext
unfolding is_type_contained_within report_unification_failure store
unify_variable n tokens context type_one node_one type_two = elim (type_one == type_two) [
  | true ↦ pure context
  | false ↦ do
    contained ← is_type_contained_within n type_one (to type_two)
    elim contained [
      | true ↦
          let recursive = record context { error_code = unify_self_recursive } in
          do report_unification_failure n tokens recursive; pure recursive
      | false ↦ do store type_one (record node_one { arg_first = to type_two }); pure context
    ]
]

-- A component: `if (type_one->arg) { _UnifyImpl(context, type_one->arg, type_two->arg); }`. Where
-- only the second is `NULL`, its kind is read, unless the first is the error type.
unfoldable pub unify_argument :
    ℕ
    → (UnifyContext → Address → Address → Check UnifyContext)
    → UnifyContext
    → Slot
    → Slot
    → Check UnifyContext
unfolding prune is_error_type
unify_argument n unify context null two = pure context
unify_argument n unify context (to one) (to two) = unify context one two
unify_argument n unify context (to one) null = do
  type_one ← prune n one
  error_one ← is_error_type type_one
  elim error_one [ true ↦ pure context | false ↦ stop bad_pointer ]
unify_argument n unify context (to one) (text _) = stop bad_pointer
unify_argument n unify context (text _) two = stop bad_pointer

-- The branch for two types that are no variables, with the call of `_UnifyImpl` as an argument.
-- The fields are read again for the second components.
unfoldable pub unify_structure :
    (UnifyContext → Address → Address → Check UnifyContext)
    → ℕ
    → List MillieToken
    → UnifyContext
    → Address
    → Address
    → Check UnifyContext
unfolding report_unification_failure unify_argument load
unify_structure unify n tokens context type_one type_two = do
  one ← load type_one
  two ← load type_two
  elim (same_kind one.type two.type) [
    | false ↦ do report_unification_failure n tokens context; pure context
    | true ↦ do
      after_first ← unify_argument n unify context one.arg_first two.arg_first
      one_again ← load type_one
      two_again ← load type_two
      unify_argument n unify after_first one_again.arg_second two_again.arg_second
  ]

-- The C code changes `context->error_code`: the context is taken and returned.
unfoldable pub unify_impl :
    ℕ → List MillieToken → UnifyContext → Address → Address → Check UnifyContext
unfolding prune is_error_type unify_variable unify_structure load
unify_impl zero tokens context unpruned_one unpruned_two = stop endless
unify_impl (suc n) tokens context unpruned_one unpruned_two = do
  type_one ← prune n unpruned_one
  type_two ← prune n unpruned_two
  error_one ← is_error_type type_one
  error_two ← is_error_type type_two
  elim (error_one || error_two) [
    | true ↦ pure context
    | false ↦ do
      node_one ← load type_one
      node_two ← load type_two
      elim (same_kind node_two.type typeexp_variable) [
        | true ↦ unify_variable n tokens context type_two node_two type_one
        | false ↦ elim (same_kind node_one.type typeexp_variable) [
          | true ↦ unify_variable n tokens context type_one node_one type_two
          | false ↦ unify_structure (unify_impl n tokens) n tokens context type_one type_two
        ]
      ]
  ]

unfoldable pub unify :
    ℕ → List MillieToken → Expression → UnificationError → Address → Address → Check (Unit {0})
unfolding unify_impl
unify n tokens node error_code type_one type_two = do
  _ ←
      unify_impl n tokens
        (record {
          expression = node;
          error_code = error_code;
          original_one = type_one;
          original_two = type_two;
        })
        type_one type_two
  pure tt
