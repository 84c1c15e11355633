-- ===== src/Extractor/Tests.antt =====
-- src/model/GGUFRegionExtractor.cpp: the regions of a small file.
use hetero_accel.Base.{refl, none, some, [], ◌∷◌, arith, All}
use hetero_accel.Extractor.{FileView, Inside, Fresh, extract, extract-Inside}

abbrev file : FileView
file = record {
  size = some 100;
  model = some (
      some (
        record { name = some "a"; offset = 10; size = 40 }
        ∷ record { name = none; offset = 0; size = 5 }
        ∷ record { name = some "b"; offset = 90; size = 20 }
        ∷ []));
}

extract-Inside_example :
    All (Inside 100) (extract "m.gguf" 1 file).0 × Fresh 1 (extract "m.gguf" 1 file).0
extract-Inside_example =
    extract-Inside "m.gguf" 1 100 file refl (omega arith, (omega arith, (omega arith, tt)))
      (omega arith)
