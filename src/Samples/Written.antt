-- ===== src/Samples/Written.antt =====
-- A document of the sample library reads back, and is written without a zero byte.
use azure_client_tools.Base.{
  suc, ◌≡◌, refl, ap, ◌∙◌, true, false, List, [], ◌∷◌, Text, c_string, pos, negsuc,
}
use azure_client_tools.Samples.Documents.{
  Value, null, text, int, bool, array, object, Items, nil, cons, Fields, done, field, write_text,
  write, write_items, write_fields, run,
}

run-write_text :
    (t rest : Text) (s : List Value) → run (write_text t rest) s ≡ run rest (text t ∷ s)
run-write_text [] rest s = refl
run-write_text (c ∷ cs) rest s = run-write_text cs (3 ∷ suc c ∷ rest) s

mutual
  unfolding write write_items write_fields

  pub run-write :
      (v : Value) (rest : Text) (s : List Value) → run (write v rest) s ≡ run rest (v ∷ s)
  run-write null rest s = refl
  run-write (text t) rest s = run-write_text t rest s
  run-write (int (pos n)) rest s = refl
  run-write (int (negsuc n)) rest s = refl
  run-write (bool true) rest s = refl
  run-write (bool false) rest s = refl
  run-write (array xs) rest s = run-write_items xs rest s
  run-write (object m) rest s = run-write_fields m rest s

  run-write_items :
      (xs : Items) (rest : Text) (s : List Value)
      → run (write_items xs rest) s ≡ run rest (array xs ∷ s)
  run-write_items nil rest s = refl
  run-write_items (cons v vs) rest s =
      run-write_items vs (write v (9 ∷ 1 ∷ rest)) s ∙ run-write v (9 ∷ 1 ∷ rest) (array vs ∷ s)

  run-write_fields :
      (m : Fields) (rest : Text) (s : List Value)
      → run (write_fields m rest) s ≡ run rest (object m ∷ s)
  run-write_fields done rest s = refl
  run-write_fields (field k v m) rest s =
      run-write_fields m (write_text k (write v (11 ∷ 1 ∷ rest))) s
      ∙ run-write_text k (write v (11 ∷ 1 ∷ rest)) (object m ∷ s)
      ∙ run-write v (11 ∷ 1 ∷ rest) (text k ∷ object m ∷ s)

c_string-write_text : (t rest : Text) → c_string (write_text t rest) ≡ write_text t (c_string rest)
unfolding c_string
c_string-write_text [] rest = refl
c_string-write_text (c ∷ cs) rest = c_string-write_text cs (3 ∷ suc c ∷ rest)

mutual
  unfolding write write_items write_fields c_string

  pub c_string-write : (v : Value) (rest : Text) → c_string (write v rest) ≡ write v (c_string rest)
  c_string-write null rest = refl
  c_string-write (text t) rest = c_string-write_text t rest
  c_string-write (int (pos n)) rest = refl
  c_string-write (int (negsuc n)) rest = refl
  c_string-write (bool true) rest = refl
  c_string-write (bool false) rest = refl
  c_string-write (array xs) rest = c_string-write_items xs rest
  c_string-write (object m) rest = c_string-write_fields m rest

  c_string-write_items :
      (xs : Items) (rest : Text) → c_string (write_items xs rest) ≡ write_items xs (c_string rest)
  c_string-write_items nil rest = refl
  c_string-write_items (cons v vs) rest =
      c_string-write_items vs (write v (9 ∷ 1 ∷ rest))
      ∙ ap (write_items vs) (c_string-write v (9 ∷ 1 ∷ rest))

  c_string-write_fields :
      (m : Fields) (rest : Text) → c_string (write_fields m rest) ≡ write_fields m (c_string rest)
  c_string-write_fields done rest = refl
  c_string-write_fields (field k v m) rest =
      c_string-write_fields m (write_text k (write v (11 ∷ 1 ∷ rest)))
      ∙ ap (write_fields m) (
          c_string-write_text k (write v (11 ∷ 1 ∷ rest))
          ∙ ap (write_text k) (c_string-write v (11 ∷ 1 ∷ rest)))
