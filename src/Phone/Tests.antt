-- ===== src/Phone/Tests.antt =====
-- The theorems on numbers at one spelling.
use olympiad_next.Prelude.{◌≡◌, ◌↔◌, refl, some}
use olympiad_next.Text.{codes}
use olympiad_next.Phone.{normalize_sender_number, bare}
use olympiad_next.Phone.Forms.{
  IsSender, Spells, normalize_sender_number_iff, normalize_sender_number_idem,
}

normalized : normalize_sender_number (codes " +880 1712-345678") ≡ some (codes "01712345678")
unfolding normalize_sender_number
normalized = refl

normalize_sender_number_iff_example :
    (normalize_sender_number (codes "+01712345678") ≡ some (codes "01712345678"))
    ↔ (IsSender (codes "01712345678") × Spells (bare (codes "+01712345678")) (codes "01712345678"))
normalize_sender_number_iff_example =
    normalize_sender_number_iff (codes "+01712345678") (codes "01712345678")

normalize_sender_number_idem_example :
    normalize_sender_number (codes "01712345678") ≡ some (codes "01712345678")
normalize_sender_number_idem_example =
    normalize_sender_number_idem (codes " +880 1712-345678") (codes "01712345678") normalized
