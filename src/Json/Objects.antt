-- ===== src/Json/Objects.antt =====
-- Objects that are built member by member.
use azure_client_tools.Base.{
  ◌≡◌, true, false, List, [], ◌∷◌, some, Text, text_eq, if◌then◌else◌, arith,
}
use azure_client_tools.Json.{Json, IsLawful}

-- The member that is set last comes first.
abbrev pub object_of : (J : Json) → List (Text × J.Value) → J.Value
object_of J [] = J.empty_object
object_of J ((k, v) ∷ fs) = J.with_member (object_of J fs) k v

-- What stands under a name.
abbrev pub last_set : (J : Json) → Text → List (Text × J.Value) → J.Value
last_set J j [] = J.null
last_set J j ((k, v) ∷ fs) = if text_eq j k then v else last_set J j fs

module _ (J : Json) (laws : IsLawful J) where
  pub object_of-is_object : (fs : List (Text × J.Value)) → J.is_object (object_of J fs) ≡ true
  object_of-is_object [] = laws.empty_is_object
  object_of-is_object ((k, v) ∷ fs) =
      laws.with_member_is_object (object_of J fs) v k (object_of-is_object fs)

  pub object_of-not_null : (fs : List (Text × J.Value)) → J.is_null (object_of J fs) ≡ false
  object_of-not_null fs = laws.object_not_null (object_of J fs) (object_of-is_object fs)

  pub member-object_of :
      (fs : List (Text × J.Value)) (j : Text) → J.member (object_of J fs) j ≡ some (last_set J j fs)
  member-object_of [] j = laws.member_missing j
  member-object_of ((k, v) ∷ fs) j = ground (
    arith,
    laws.member_set (object_of J fs) v j k (object_of-is_object fs),
    member-object_of fs j,
  )
