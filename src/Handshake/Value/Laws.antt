-- ===== src/Handshake/Value/Laws.antt =====
-- Laws of the properties of an object.
use rivalis.Common.{◌≡◌, refl, ap, true, false, String, string_key, ◌==◌, if◌then◌else◌, arith}
use rivalis.Common.Map.{beq_refl}
use text.Mathlib.TextEquality.{eq_iff}
use rivalis.Handshake.Value.{
  Value, undefined, Values, nil, cons, Fields, end, field, get, put, has_own, push,
}

pub get-put_self : (k : String) (v : Value) (fs : Fields) → get k (put k v fs) ≡ v
unfolding get put
get-put_self k v end = rw (beq_refl k)
get-put_self k v (field j w fs) = ground (arith, eq_iff j k, get-put_self k v fs)

pub put-put_self : (k : String) (v w : Value) (fs : Fields) → put k v (put k w fs) ≡ put k v fs
unfolding put
put-put_self k v w end = rw (beq_refl k)
put-put_self k v w (field j u fs) = ground (arith, eq_iff j k, put-put_self k v w fs)

pub get_absent : (k : String) (fs : Fields) → has_own k fs ≡ false → get k fs ≡ undefined
unfolding get has_own
get_absent k end h = refl
get_absent k (field j u fs) h = ground (arith, get_absent k fs)

pub has_own-put :
    (k j : String) (v : Value) (fs : Fields)
    → has_own j (put k v fs) ≡ (if k == j then true else has_own j fs)
unfolding has_own put
has_own-put k j v end = refl
has_own-put k j v (field i u fs) =
    ground (arith, eq_iff k j, eq_iff i k, eq_iff i j, has_own-put k j v fs)

abbrev pub append_values : Values → Values → Values
append_values nil ws = ws
append_values (cons v vs) ws = cons v (append_values vs ws)

pub append_values-push :
    (vs : Values) (x : Value) (xs : Values)
    → append_values (push vs x) xs ≡ append_values vs (cons x xs)
unfolding push
append_values-push nil x xs = refl
append_values-push (cons v vs) x xs = ap (cons v) (append_values-push vs x xs)

pub append_values-nil : (vs : Values) → append_values vs nil ≡ vs
append_values-nil nil = refl
append_values-nil (cons v vs) = ap (cons v) (append_values-nil vs)
