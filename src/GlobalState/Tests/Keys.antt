-- ===== src/GlobalState/Tests/Keys.antt =====
-- Keys of concrete records.
use deso_backend.Base.{◌≡◌, refl, codes}
use deso_backend.GlobalState.Keys.Payments.{
  key_for_country_id_document_type_sub_type_document_number,
}
use deso_backend.GlobalState.Keys.Stored.{StoredKey, family, stored_key, stored_key-family}
use deso_backend.GlobalState.Tests.Model.{encoding}

-- two documents under one key
abbrev one_document : StoredKey
one_document =
    StoredKey.country_id_document_type_sub_type_document_number (codes "US") (codes "ID")
      (codes "x") (codes "1")

abbrev other_document : StoredKey
other_document =
    StoredKey.country_id_document_type_sub_type_document_number (codes "U") (codes "SID")
      (codes "x") (codes "1")

documents_share_a_key : stored_key encoding one_document ≡ stored_key encoding other_document
unfolding stored_key key_for_country_id_document_type_sub_type_document_number
documents_share_a_key = refl

stored_key-family_example : family one_document ≡ family other_document
stored_key-family_example =
    stored_key-family encoding one_document other_document documents_share_a_key
