-- ===== src/Kinds.antt =====
-- internal/kinds/kind.go
use cascader.Common.{Text, codes}
use cascader.Dict.{Dict}

-- `type Kind string`: any string, of which the program names three.
abbrev pub Kind : Type 0
Kind = Text

abbrev pub daemon_set_kind : Kind
daemon_set_kind = codes "DaemonSet"

abbrev pub deployment_kind : Kind
deployment_kind = codes "Deployment"

abbrev pub stateful_set_kind : Kind
stateful_set_kind = codes "StatefulSet"

abbrev pub AnnotationKindMap : Type 0
AnnotationKindMap = Dict Kind
