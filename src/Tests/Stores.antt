-- ===== src/Tests/Stores.antt =====
-- Two stores, of which the second one has the secret. The world is the number of calls so far.
use confii_go.Base.{ℕ, ◌+◌, Bool, true, Option, none, some, [], ◌∷◌, Text, codes, text_eq}
use confii_go.Value.{Value}
use confii_go.Multi.{Answer, MultiError, found, failed, took, Store, MultiStore}
use confii_go.Multi.Masking.{get_secret-found}
use confii_go.Tests.Data.{host}

abbrev live : ℕ → Option Text × ℕ
live w = (none, w + 1)

abbrev absent : Text → Bool
absent e = text_eq e (codes "not found")

abbrev canceled : Text → Bool
canceled e = text_eq e (codes "canceled")

abbrev store_with : Text → Option Value → Option Text → Store ℕ Text
store_with name value e = record {
  name = name;
  get = λ key w. record { val = value; get_err = e; get_world = w + 1 };
  put_secret = λ key v w. (none, w);
  remove = λ key w. (none, w);
  list = λ prefix w. record { listed = []; list_err = none; list_world = w };
}

abbrev empty_store : Store ℕ Text
empty_store = store_with (codes "vault") none (some (codes "not found"))

abbrev full_store : Store ℕ Text
full_store = store_with (codes "dict") (some host) none

abbrev both : MultiStore ℕ Text
both = record { stores = empty_store ∷ full_store ∷ []; write_to_first = true }

abbrev empty_only : MultiStore ℕ Text
empty_only = record { stores = empty_store ∷ []; write_to_first = true }
