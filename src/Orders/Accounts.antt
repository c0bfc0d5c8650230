-- ===== src/Orders/Accounts.antt =====
-- apps/core/payment_account_numbers.py: the number under which an order is paid. The random tokens are
-- a parameter, in the order in which they are drawn; `day` is the formatted local date.
use Prim.Native.String.{◌++◌}
use palingames.Base.{
  ◌≡◌, refl, String, Bool, true, false, ◌||◌, Option, none, some, List, [], ◌∷◌, any, str_eq,
  if◌then◌else◌,
}

-- Each token is one of the `max_attempts` attempts; `none` is the RuntimeError.
unfoldable pub generate_payment_account_no :
    String → String → String → (String → Bool) → List String → Option String
generate_payment_account_no prefix source day exists [] = none
generate_payment_account_no prefix source day exists (token ∷ tokens) =
    let rest = generate_payment_account_no prefix source day exists tokens in
    let account_no = prefix ++ source ++ day ++ token in
    if exists account_no then rest else some account_no

abbrev pub is_text : String → Option String → Bool
is_text s none = false
is_text s (some t) = str_eq t s

-- `.filter(payment_account_no=account_no).exists()` for each of the tables, of which the column is given.
unfoldable pub payment_account_no_exists : String → List (List (Option String)) → Bool
payment_account_no_exists account_no [] = false
payment_account_no_exists account_no (table ∷ tables) =
    any (is_text account_no) table || payment_account_no_exists account_no tables

-- A number that is given out is in no row of the tables.
pub generate_payment_account_no-fresh :
    (prefix source day : String) (exists : String → Bool) (tokens : List String)
    {account_no : String}
    → generate_payment_account_no prefix source day exists tokens ≡ some account_no
    → exists account_no ≡ false
unfolding generate_payment_account_no
generate_payment_account_no-fresh prefix source day exists [] h = cc
generate_payment_account_no-fresh prefix source day exists (token ∷ tokens) {account_no} h =
    go (exists (prefix ++ source ++ day ++ token)) refl
      (generate_payment_account_no-fresh prefix source day exists tokens) h
  where
    go :
        (taken : Bool)
        → exists (prefix ++ source ++ day ++ token) ≡ taken
        → (generate_payment_account_no prefix source day exists tokens ≡ some account_no
            → exists account_no ≡ false)
        → (if taken
            then generate_payment_account_no prefix source day exists tokens
            else some (prefix ++ source ++ day ++ token))
          ≡ some account_no
        → exists account_no ≡ false
    go true e rest h = rest h
    go false e rest h = cc
