-- ===== src/Tests/Texts.antt =====
-- Runs of the operations on texts.
use watched_agent.Base.{◌≡◌, refl, codes}
use watched_agent.Text.{strtoul16, to_hex, scan, skip_space, sign, skip_0x}

strtoul16_test : strtoul16 (codes " 0x1F:3") ≡ 31
unfolding strtoul16 scan skip_space sign skip_0x
strtoul16_test = refl

to_hex_test : to_hex 9080 ≡ codes "2378"
unfolding to_hex
to_hex_test = refl
