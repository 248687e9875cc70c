-- ===== src/Snapshot/Tests.antt =====
-- Names of restore points for the id of the registered procedure.
use oracle_patching.Prelude.{◌≤◌, ◌≡◌, refl, arith}
use oracle_patching.Text.{str_len, str_take}
use oracle_patching.Text.Laws.{Digits}
use oracle_patching.Snapshot.{name_at}
use oracle_patching.Snapshot.Name.{Safe, name_at-IsIdentifier, name_at-collides}

stamp-Digits : Digits "2026"
stamp-Digits = (refl, (refl, (refl, (refl, tt))))

name_at-IsIdentifier_example :
    (str_len (name_at "ru-patch; DROP" "2026") ≤ 32) × Safe (name_at "ru-patch; DROP" "2026")
name_at-IsIdentifier_example = name_at-IsIdentifier "ru-patch; DROP" "2026" stamp-Digits

same_century : str_take 2 "20260922120000" ≡ str_take 2 "20271231235959"
unfolding str_take
same_century = refl

name_at-collides_example :
    name_at "oracle_19c_rac_ru_patch" "20260922120000"
    ≡ name_at "oracle_19c_rac_ru_patch" "20271231235959"
name_at-collides_example =
    name_at-collides "oracle_19c_rac_ru_patch" "20260922120000" "20271231235959" (omega arith)
      same_century
