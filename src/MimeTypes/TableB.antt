-- ===== src/MimeTypes/TableB.antt =====
-- Source/Utilities/MimeTypes.cpp: the table's part from `di` to `icq`.
use marisa.Prelude.{List, [], ◌∷◌, Bytes, codes}

abbrev pub mime_types_b : List (Bytes × Bytes)
mime_types_b =
    (codes "di", codes "text/x-dsrc")
    ∷ (codes "divx", codes "video/x-msvideo")
    ∷ (codes "djv", codes "image/vnd.djvu")
    ∷ (codes "djvu", codes "image/vnd.djvu")
    ∷ (codes "dll", codes "application/x-sharedlib")
    ∷ (codes "dmg", codes "application/x-apple-diskimage")
    ∷ (codes "dmp", codes "application/vnd.tcpdump.pcap")
    ∷ (codes "dng", codes "image/x-adobe-dng")
    ∷ (codes "doc", codes "application/vnd.ms-word")
    ∷ (codes "docbook", codes "application/x-docbook")
    ∷ (codes "docm", codes "application/vnd.ms-word.document.macroenabled.12")
    ∷ (codes "docx", codes "application/vnd.opeformats-officedocument.wordprocessingml.document")
    ∷ (codes "dot", codes "application/msword-template")
    ∷ (codes "dotm", codes "application/vnd.ms-word.template.macroenabled.12")
    ∷ (codes "dotx", codes "application/vnd.opeformats-officedocument.wordprocessingml.template")
    ∷ (codes "dsl", codes "text/x-dsl")
    ∷ (codes "dtd", codes "application-dtd")
    ∷ (codes "d", codes "text/x-dsrc")
    ∷ (codes "dts", codes "audio/vnd.dts")
    ∷ (codes "dtshd", codes "audio/vnd.dts.hd")
    ∷ (codes "dtx", codes "text/x-tex")
    ∷ (codes "dvi", codes "application/x-dvi")
    ∷ (codes "dv", codes "video/dv")
    ∷ (codes "dwg", codes "image/vnd.dwg")
    ∷ (codes "dxf", codes "image/vnd.dxf")
    ∷ (codes "egon", codes "application/x-egon")
    ∷ (codes "eif", codes "text/x-eiffel")
    ∷ (codes "el", codes "text/x-emacs-lisp")
    ∷ (codes "emf", codes "image/emf")
    ∷ (codes "emp", codes "application/vnd.emusic-emusic_package")
    ∷ (codes "enc", codes "text/x-uuencode")
    ∷ (codes "ent", codes "application-external-parsed-entity")
    ∷ (codes "epsf", codes "image/x-eps")
    ∷ (codes "epsi", codes "image/x-eps")
    ∷ (codes "eps", codes "image/x-eps")
    ∷ (codes "epub", codes "application/epub+zip")
    ∷ (codes "erf", codes "application/x-endace-erf")
    ∷ (codes "erl", codes "text/x-erlang")
    ∷ (codes "es", codes "application/ecmascript")
    ∷ (codes "e", codes "text/x-eiffel")
    ∷ (codes "etheme", codes "application/x-e-theme")
    ∷ (codes "etx", codes "text/x-setext")
    ∷ (codes "exe", codes "application/x-ms-dos-executable")
    ∷ (codes "exr", codes "image/x-exr")
    ∷ (codes "ez", codes "application/andrew-inset")
    ∷ (codes "f4a", codes "audio/mp4")
    ∷ (codes "f4b", codes "audio/x-m4b")
    ∷ (codes "f4v", codes "video/mp4")
    ∷ (codes "f90", codes "text/x-fortran")
    ∷ (codes "f95", codes "text/x-fortran")
    ∷ (codes "fb2", codes "application/x-fictionbook")
    ∷ (codes "fds", codes "application/x-fds-disk")
    ∷ (codes "feature", codes "text/x-gherkin")
    ∷ (codes "fff", codes "image/x-kde-raw")
    ∷ (codes "fgeo", codes "application/x-drgeo")
    ∷ (codes "fig", codes "image/x-xfig")
    ∷ (codes "fits", codes "image/fits")
    ∷ (codes "fkt", codes "application/x-kmplot")
    ∷ (codes "flac", codes "audio/flac")
    ∷ (codes "fl", codes "application/x-fluid")
    ∷ (codes "flatpak", codes "application/vnd.flatpak")
    ∷ (codes "flatpakref", codes "application/vnd.flatpak.ref")
    ∷ (codes "flatpakrepo", codes "application/vnd.flatpak.repo")
    ∷ (codes "flc", codes "video/x-flic")
    ∷ (codes "fli", codes "video/x-flic")
    ∷ (codes "flv", codes "video/x-flv")
    ∷ (codes "flw", codes "application/x-kivio")
    ∷ (codes "fm", codes "application/vnd.framemaker")
    ∷ (codes "fodg", codes "application/vnd.oasis.opendocument.graphics-flat")
    ∷ (codes "fodp", codes "application/vnd.oasis.opendocument.presentation-flat")
    ∷ (codes "fods", codes "application/vnd.oasis.opendocument.spreadsheet-flat")
    ∷ (codes "fodt", codes "application/vnd.oasis.opendocument.text-flat")
    ∷ (codes "for", codes "text/x-fortran")
    ∷ (codes "fo", codes "text/x-xslfo")
    ∷ (codes "fskin", codes "application/x-fskin")
    ∷ (codes "f", codes "text/x-fortran")
    ∷ (codes "fxm", codes "video/x-javafx")
    ∷ (codes "g3", codes "image/fax-g3")
    ∷ (codes "gba", codes "application/x-gba-rom")
    ∷ (codes "gb", codes "application/x-gameboy-rom")
    ∷ (codes "gbc", codes "application/x-gameboy-color-rom")
    ∷ (codes "gbr", codes "image/x-gimp-gbr")
    ∷ (codes "gcode", codes "text/x.gcode")
    ∷ (codes "gcrd", codes "text/vcard")
    ∷ (codes "ged", codes "application/x-gedcom")
    ∷ (codes "gedcom", codes "application/x-gedcom")
    ∷ (codes "gem", codes "application/x-tar")
    ∷ (codes "gen", codes "application/x-genesis-rom")
    ∷ (codes "geojson", codes "application/geo+json")
    ∷ (codes "gf", codes "application/x-tex-gf")
    ∷ (codes "gg", codes "application/x-gamegear-rom")
    ∷ (codes "gif", codes "image/gif")
    ∷ (codes "gih", codes "image/x-gimp-gih")
    ∷ (codes "glade", codes "application/x-glade")
    ∷ (codes "gml", codes "application/gml")
    ∷ (codes "gmo", codes "application/x-gettext-translation")
    ∷ (codes "gnc", codes "application/x-gnucash")
    ∷ (codes "gnd", codes "application/gnunet-directory")
    ∷ (codes "gnucash", codes "application/x-gnucash")
    ∷ (codes "gnumeric", codes "application/x-gnumeric")
    ∷ (codes "gnuplot", codes "application/x-gnuplot")
    ∷ (codes "go", codes "text/x-go")
    ∷ (codes "gp", codes "application/x-gnuplot")
    ∷ (codes "gpg", codes "application/pgp-encrypted")
    ∷ (codes "gplt", codes "application/x-gnuplot")
    ∷ (codes "gpx", codes "application/gpx")
    ∷ (codes "gra", codes "application/x-graphite")
    ∷ (codes "grc", codes "application/gnuradio-grc")
    ∷ (codes "gsf", codes "application/x-font-type1")
    ∷ (codes "gsm", codes "audio/x-gsm")
    ∷ (codes "gs", codes "text/x-genie")
    ∷ (codes "gtar", codes "application/x-tar")
    ∷ (codes "gvp", codes "text/x-google-video-pointer")
    ∷ (codes "gv", codes "text/vnd.graphviz")
    ∷ (codes "gz", codes "application/gzip")
    ∷ (codes "h4", codes "application/x-hdf")
    ∷ (codes "h5", codes "application/x-hdf")
    ∷ (codes "hdf4", codes "application/x-hdf")
    ∷ (codes "hdf5", codes "application/x-hdf")
    ∷ (codes "hdf", codes "application/x-hdf")
    ∷ (codes "hdr", codes "image/x-hdr")
    ∷ (codes "hex", codes "text/x-hex")
    ∷ (codes "hfe", codes "application/x-hfe-floppy-image")
    ∷ (codes "hh", codes "text/x-c++hdr")
    ∷ (codes "hlp", codes "application/winhlp")
    ∷ (codes "hpgl", codes "application/vnd.hp-hpgl")
    ∷ (codes "hpp", codes "text/x-c++hdr")
    ∷ (codes "hp", codes "text/x-c++hdr")
    ∷ (codes "hrd", codes "image/x-kde-raw")
    ∷ (codes "hs", codes "text/x-haskell")
    ∷ (codes "h", codes "text/x-chdr")
    ∷ (codes "h++", codes "text/x-c++hdr")
    ∷ (codes "html", codes "text/html")
    ∷ (codes "htm", codes "text/html")
    ∷ (codes "hwp", codes "application/x-hwp")
    ∷ (codes "hwt", codes "application/x-hwt")
    ∷ (codes "hxx", codes "text/x-c++hdr")
    ∷ (codes "ia", codes "application/vnd.sun.writer.global")
    ∷ (codes "ica", codes "application/x-ica")
    ∷ (codes "icb", codes "image/x-tga")
    ∷ (codes "icc", codes "application/vnd.iccprofile")
    ∷ (codes "icm", codes "application/vnd.iccprofile")
    ∷ (codes "icns", codes "image/x-icns")
    ∷ (codes "ico", codes "image/vnd.microsoft.icon")
    ∷ (codes "icq", codes "application/x-icq")
    ∷ []
