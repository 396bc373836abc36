-- ===== src/Tests/Config.antt =====
-- The theorems about the environment's variables at concrete values.
use kitchen_ops.Base.{◌≡◌, refl, true, false, [], ◌∷◌, Bytes, codes}
use kitchen_ops.Config.{env_csv, env_bool}
use kitchen_ops.Config.Lists.{env_csv-join}

-- An environment whose variables all have the same value.
abbrev always : Bytes → Bytes → Bytes
always value key = value

yes_is_true : env_bool (always (codes " Yes ")) (codes "FROM_BEGINNING") false ≡ true
unfolding env_bool
yes_is_true = refl

env_csv-join_example :
    env_csv (always (codes "k1,k2")) (codes "KAFKA_BROKERS") (codes "localhost:9092")
    ≡ codes "k1" ∷ codes "k2" ∷ []
env_csv-join_example =
    env_csv-join (always (codes "k1,k2")) (codes "KAFKA_BROKERS") (codes "localhost:9092")
      (codes "k1") (codes "k2" ∷ []) (refl, ((refl, refl), ((refl, refl), tt)))
      ((refl, ((refl, refl), ((refl, refl), tt))), tt) refl
