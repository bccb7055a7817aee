-- ===== src/MimeTypes/TableG.antt =====
-- Source/Utilities/MimeTypes.cpp: the table's part from `ult` to `zz`.
use marisa.Prelude.{List, [], ◌∷◌, Bytes, codes}

abbrev pub mime_types_g : List (Bytes × Bytes)
mime_types_g =
    (codes "ult", codes "audio/x-mod")
    ∷ (codes "unf", codes "application/x-nes-rom")
    ∷ (codes "uni", codes "audio/x-mod")
    ∷ (codes "unif", codes "application/x-nes-rom")
    ∷ (codes "url", codes "application/x-mswinurl")
    ∷ (codes "ustar", codes "application/x-ustar")
    ∷ (codes "uue", codes "text/x-uuencode")
    ∷ (codes "uu", codes "text/x-uuencode")
    ∷ (codes "v64", codes "application/x-n64-rom")
    ∷ (codes "vala", codes "text/x-vala")
    ∷ (codes "vapi", codes "text/x-vala")
    ∷ (codes "vb", codes "application/x-virtual-boy-rom")
    ∷ (codes "vbs", codes "application/x-vbscript")
    ∷ (codes "vcard", codes "text/vcard")
    ∷ (codes "vcf", codes "text/vcard")
    ∷ (codes "vcs", codes "text/calendar")
    ∷ (codes "vct", codes "text/vcard")
    ∷ (codes "vda", codes "image/x-tga")
    ∷ (codes "vhdl", codes "text/x-vhdl")
    ∷ (codes "vhd", codes "text/x-vhdl")
    ∷ (codes "vivo", codes "video/vnd.vivo")
    ∷ (codes "viv", codes "video/vnd.vivo")
    ∷ (codes "vlc", codes "audio/x-mpegurl")
    ∷ (codes "vob", codes "video/mpeg")
    ∷ (codes "voc", codes "audio/x-voc")
    ∷ (codes "vor", codes "application/vnd.stardivision.writer")
    ∷ (codes "vsd", codes "application/vnd.visio")
    ∷ (codes "vsdm", codes "application/vnd.ms-visio.drawing.macroenabled.main")
    ∷ (codes "vsdx", codes "application/vnd.ms-visio.drawing.main")
    ∷ (codes "vss", codes "application/vnd.visio")
    ∷ (codes "vssm", codes "application/vnd.ms-visio.stencil.macroenabled.main")
    ∷ (codes "vssx", codes "application/vnd.ms-visio.stencil.main")
    ∷ (codes "vst", codes "application/vnd.visio")
    ∷ (codes "vst", codes "image/x-tga")
    ∷ (codes "vstm", codes "application/vnd.ms-visio.template.macroenabled.main")
    ∷ (codes "vstx", codes "application/vnd.ms-visio.template.main")
    ∷ (codes "vsw", codes "application/vnd.visio")
    ∷ (codes "v", codes "text/x-verilog")
    ∷ (codes "vtt", codes "text/vtt")
    ∷ (codes "vv", codes "application/x-virt-viewer")
    ∷ (codes "vwr", codes "application/x-ixia-vwr")
    ∷ (codes "wad", codes "application/x-wii-wad")
    ∷ (codes "war", codes "application/x-webarchive")
    ∷ (codes "wav", codes "audio/x-wav")
    ∷ (codes "wax", codes "audio/x-ms-asx")
    ∷ (codes "wb1", codes "application/x-quattropro")
    ∷ (codes "wb2", codes "application/x-quattropro")
    ∷ (codes "wb3", codes "application/x-quattropro")
    ∷ (codes "wbmp", codes "image/vnd.wap.wbmp")
    ∷ (codes "wcm", codes "application/vnd.ms-works")
    ∷ (codes "wdb", codes "application/vnd.ms-works")
    ∷ (codes "webm", codes "video/webm")
    ∷ (codes "webp", codes "image/webp")
    ∷ (codes "westley", codes "video/mlt-playlist")
    ∷ (codes "wim", codes "application/x-ms-wim")
    ∷ (codes "wk1", codes "application/vnd.lotus-1-2-3")
    ∷ (codes "wk3", codes "application/vnd.lotus-1-2-3")
    ∷ (codes "wk4", codes "application/vnd.lotus-1-2-3")
    ∷ (codes "wkdownload", codes "application/x-partial-download")
    ∷ (codes "wks", codes "application/vnd.lotus-1-2-3")
    ∷ (codes "wks", codes "application/vnd.ms-works")
    ∷ (codes "wma", codes "audio/x-ms-wma")
    ∷ (codes "wmf", codes "image/wmf")
    ∷ (codes "wmls", codes "text/vnd.wap.wmlscript")
    ∷ (codes "wml", codes "text/vnd.wap.wml")
    ∷ (codes "wmp", codes "video/x-ms-wmp")
    ∷ (codes "wmv", codes "video/x-ms-wmv")
    ∷ (codes "wmx", codes "audio/x-ms-asx")
    ∷ (codes "woff2", codes "font/woff")
    ∷ (codes "woff", codes "font/woff")
    ∷ (codes "wp4", codes "application/vnd.wordperfect")
    ∷ (codes "wp5", codes "application/vnd.wordperfect")
    ∷ (codes "wp6", codes "application/vnd.wordperfect")
    ∷ (codes "wp", codes "application/vnd.wordperfect")
    ∷ (codes "wpd", codes "application/vnd.wordperfect")
    ∷ (codes "wpg", codes "application/x-wpg")
    ∷ (codes "wpl", codes "application/vnd.ms-wpl")
    ∷ (codes "wpp", codes "application/vnd.wordperfect")
    ∷ (codes "wps", codes "application/vnd.ms-works")
    ∷ (codes "wpz", codes "application/x-etherpeek")
    ∷ (codes "wql", codes "application/x-kwordquiz")
    ∷ (codes "wri", codes "application/x-mswrite")
    ∷ (codes "ws", codes "application/x-wonderswan-rom")
    ∷ (codes "wsc", codes "application/x-wonderswan-color-rom")
    ∷ (codes "wv", codes "audio/x-wavpack")
    ∷ (codes "wvc", codes "audio/x-wavpack-correction")
    ∷ (codes "wvp", codes "audio/x-wavpack")
    ∷ (codes "wvx", codes "audio/x-ms-asx")
    ∷ (codes "wwf", codes "application/x-wwf")
    ∷ (codes "x3f", codes "image/x-sigma-x3f")
    ∷ (codes "xac", codes "application/x-gnucash")
    ∷ (codes "xar", codes "application/x-xar")
    ∷ (codes "xbel", codes "application/x-xbel")
    ∷ (codes "xbl", codes "application")
    ∷ (codes "xbm", codes "image/x-xbitmap")
    ∷ (codes "xcf", codes "image/x-xcf")
    ∷ (codes "xdgapp", codes "application/vnd.flatpak")
    ∷ (codes "xht", codes "application/xhtml")
    ∷ (codes "xhtml", codes "application/xhtml")
    ∷ (codes "xi", codes "audio/x-xi")
    ∷ (codes "xla", codes "application/vnd.ms-excel")
    ∷ (codes "xlam", codes "application/vnd.ms-excel.addin.macroenabled.12")
    ∷ (codes "xlc", codes "application/vnd.ms-excel")
    ∷ (codes "xld", codes "application/vnd.ms-excel")
    ∷ (codes "xlf", codes "application/x-xliff")
    ∷ (codes "xliff", codes "application/x-xliff")
    ∷ (codes "xll", codes "application/vnd.ms-excel")
    ∷ (codes "xlm", codes "application/vnd.ms-excel")
    ∷ (codes "xlr", codes "application/vnd.ms-works")
    ∷ (codes "xls", codes "application/vnd.ms-excel")
    ∷ (codes "xlsb", codes "application/vnd.ms-excel.sheet.binary.macroenabled.12")
    ∷ (codes "xlsm", codes "application/vnd.ms-excel.sheet.macroenabled.12")
    ∷ (codes "xlsx", codes "application/vnd.opeformats-officedocument.spreadsheetml.sheet")
    ∷ (codes "xlt", codes "application/vnd.ms-excel")
    ∷ (codes "xltm", codes "application/vnd.ms-excel.template.macroenabled.12")
    ∷ (codes "xltx", codes "application/vnd.opeformats-officedocument.spreadsheetml.template")
    ∷ (codes "xlw", codes "application/vnd.ms-excel")
    ∷ (codes "xm", codes "audio/x-xm")
    ∷ (codes "xmf", codes "audio/x-xmf")
    ∷ (codes "xmi", codes "text/x-xmi")
    ∷ (codes "xml", codes "application")
    ∷ (codes "xpi", codes "application/x-xpinstall")
    ∷ (codes "xpm", codes "image/x-xpixmap")
    ∷ (codes "xps", codes "application/oxps")
    ∷ (codes "xsd", codes "application")
    ∷ (codes "xsd", codes "application/xsd")
    ∷ (codes "xsl", codes "application/xslt")
    ∷ (codes "xslfo", codes "text/x-xslfo")
    ∷ (codes "xslt", codes "application/xslt")
    ∷ (codes "xspf", codes "application/xspf")
    ∷ (codes "xul", codes "application/vnd.mozilla.xul")
    ∷ (codes "xwd", codes "image/x-xwindowdump")
    ∷ (codes "xxe", codes "text/x-xxencode")
    ∷ (codes "xz", codes "application/x-xz")
    ∷ (codes "yaml", codes "application/x-yaml")
    ∷ (codes "yml", codes "application/x-yaml")
    ∷ (codes "z64", codes "application/x-n64-rom")
    ∷ (codes "zabw", codes "application/x-abiword")
    ∷ (codes "z", codes "application/x-compress")
    ∷ (codes "zip", codes "application/zip")
    ∷ (codes "zoo", codes "application/x-zoo")
    ∷ (codes "zsav", codes "application/x-spss-sav")
    ∷ (codes "zz", codes "application/zlib")
    ∷ []
