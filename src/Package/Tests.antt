-- ===== src/Package/Tests.antt =====
-- A package with a text and a number.
use libre_connect.Base.{◌≡◌, refl, [], ◌∷◌, length, arith, ok}
use libre_connect.Wire.Primitive.{primitive, primitive-IsLawful}
use libre_connect.Wire.Text.{text, text-IsLawful}
use libre_connect.Package.{Package, Args, nil, cons, create}
use libre_connect.Package.Laws.{Lawful, nil_lawful, cons_lawful, total, ReadsBack, create-get_value}

abbrev args : Args
args = cons text (104 ∷ 105 ∷ []) (cons (primitive 8) 70000 nil)

abbrev args-Lawful : Lawful args
args-Lawful =
    cons_lawful text-IsLawful (omega arith)
      (cons_lawful (primitive-IsLawful 8 (omega arith)) (omega arith) nil_lawful)

args-total : total args ≡ 18
unfolding text primitive
args-total = refl

create-get_value_example :
    (p : Package) × (create 12 args ≡ ok p)
    × (p.header.type ≡ 12)
    × (p.header.size ≡ length p.buffer)
    × (q : Package) × ReadsBack args p q
    × (q.read_offset ≡ length q.buffer)
create-get_value_example = create-get_value 12 args-Lawful (omega (arith, args-total))
